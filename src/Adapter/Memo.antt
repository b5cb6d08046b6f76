-- ===== src/Adapter/Memo.antt =====
-- A block that sets a field once, and what holds of a getter that is made of such blocks.
use storage_metrics_server.Base.{
  ◌≡◌, refl, sym, ap, ◌∙◌, String, Option, none, some, List, [], ◌∷◌, Result, ok, err,
}
use storage_metrics_server.Adapter.{Objects, Libraries, Adapter, Call, made, once, ◌then◌}
use storage_metrics_server.Adapter.Setup.{checked}

module _ {T : Type 0} (t : Objects T) where
  -- A method that gave `a` and left `b` gives `a` again and leaves `b` as it is.
  abbrev pub IsKept : {A : Type 0} → (Libraries t → Call t A) → Type 0
  IsKept {A} method =
      (l later : Libraries t) (a : A) (b c : Adapter t)
      → method l b ≡ (ok a, c)
      → method later c ≡ (ok a, c)

  made-ok :
      {A : Type 0} (r : Result String A) (keep : A → Adapter t → Adapter t) (b c : Adapter t)
      (a : A)
      → made r keep b ≡ (ok a, c)
      → keep a b ≡ c
  made-ok (ok x) keep b c a e = cc
  made-ok (err x) keep b c a e =
      absurd (err-ne-ok (ap (λ (q : Result String _ × Adapter t). q.0) e))
    where
      err-ne-ok : {A : Type 0} {x : String} {a : A} → err x ≡ ok a → ⊥
      err-ne-ok e = cc

  pub then-ok :
      {A B : Type 0} (r : Result String A × Adapter t) (f : A → Call t B) (x : B) (c : Adapter t)
      → ◌then◌ r f ≡ (ok x, c)
      → (a : A) × (b : Adapter t) × (r ≡ (ok a, b)) × (f a b ≡ (ok x, c))
  unfolding ◌then◌
  then-ok (ok a, b) f x c e = (a, b, refl, e)
  then-ok (err y, b) f x c e = absurd (err-ne-ok (ap (λ (q : Result String _ × Adapter t). q.0) e))
    where
      err-ne-ok : {A : Type 0} {x : String} {a : A} → err x ≡ ok a → ⊥
      err-ne-ok e = cc

  pub pair-ok :
      {A : Type 0} {x y : A} {b c : Adapter t}
      → ◌≡◌ {A = Result String A × Adapter t} (ok x, b) (ok y, c)
      → (x ≡ y) × (b ≡ c)
  pair-ok e = (cc, ap (λ (q : Result String _ × Adapter t). q.1) e)

  -- A field that the block sets, or that was set, holds what the getter gave.
  pub once-keeps :
      {A : Type 0} (field : Adapter t → Option A) (o : Option A) (b c : Adapter t)
      (fresh : Result String A × Adapter t) (a : A)
      → field b ≡ o
      → (fresh ≡ (ok a, c) → field c ≡ some a)
      → once o b fresh ≡ (ok a, c)
      → field c ≡ some a
  once-keeps field (some x) b c fresh a f h e =
      let (p, q) = pair-ok e in ap field (sym q) ∙ f ∙ ap some p
  once-keeps field none b c fresh a f h e = h e

  -- The same, where the block runs a getter and then a library's constructor.
  pub then-keeps :
      {A B : Type 0} (field : Adapter t → Option B) (r : Result String A × Adapter t)
      (make : A → Adapter t → Result String B) (keep : B → Adapter t → Adapter t) (x : B)
      (c : Adapter t)
      → ((y : B) (b : Adapter t) → field (keep y b) ≡ some y)
      → ◌then◌ r (λ a b. made (make a b) keep b) ≡ (ok x, c)
      → field c ≡ some x
  then-keeps field r make keep x c h e =
      let (a, b, g, f) = then-ok r (λ a b. made (make a b) keep b) x c e in
      ap field (sym (made-ok (make a b) keep b c x f)) ∙ h x b

  pub once-again :
      {A : Type 0} (o : Option A) (c : Adapter t) (fresh : Result String A × Adapter t) (a : A)
      → o ≡ some a
      → once o c fresh ≡ (ok a, c)
  once-again (some x) c fresh a e = ap (λ y. (ok y, c)) (some_inj e)
    where
      some_inj : {A : Type 0} {x y : A} → some x ≡ some y → x ≡ y
      some_inj e = cc
  once-again none c fresh a e = absurd (none-ne-some e)
    where
      none-ne-some : {A : Type 0} {y : A} → none ≡ some y → ⊥
      none-ne-some e = cc

  pub checked-ok :
      {A : Type 0} (errs : List String) (text : String) (b c : Adapter t)
      (next : Result String A × Adapter t) (a : A)
      → checked t errs text b next ≡ (ok a, c)
      → (errs ≡ []) × (next ≡ (ok a, c))
  checked-ok [] text b c next a e = (refl, e)
  checked-ok (x ∷ errs) text b c next a e =
      absurd (err-ne-ok (ap (λ (q : Result String _ × Adapter t). q.0) e))
    where
      err-ne-ok : {A : Type 0} {x : String} {a : A} → err x ≡ ok a → ⊥
      err-ne-ok e = cc
