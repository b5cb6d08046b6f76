-- ===== src/Options/Checks.antt =====
-- Exactly which options are accepted.
use storage_metrics_server.Base.{
  ◌≡◌, ◌↔◌, refl, ◌⊎◌, String, pos, ◌≤ℤ◌, Bool, true, false, List, [], ◌∷◌, ◌++◌, ◌==◌, string_eq,
  Eq, arith,
}
use storage_metrics_server.Options.{
  KubeletClientOptions, OptionError, error_if, validate, validate_storage,
  new_kubelet_client_options, new_storage_metrics_options,
}

-- What the flags may be.
pub record IsAccepted (o : KubeletClientOptions) : Type 0 where
  pub ca_or_insecure : (o.kubelet_ca_file ≡ "") ⊎ (o.insecure_kubelet_tls ≡ false)
  pub key_and_cert : (o.kubelet_client_key_file ≡ "") ↔ (o.kubelet_client_cert_file ≡ "")
  pub timeout : pos 1 ≤ℤ o.kubelet_request_timeout
  pub port_low : pos 1 ≤ℤ o.kubelet_port
  pub port_high : o.kubelet_port ≤ℤ pos 65535

append-nil_left : {A : Type 0} (xs ys : List A) → xs ++ ys ≡ [] → (xs ≡ []) × (ys ≡ [])
append-nil_left [] ys e = (refl, e)
append-nil_left (x ∷ xs) ys e = absurd (cons-ne-nil e)
  where
    cons-ne-nil : x ∷ (xs ++ ys) ≡ [] → ⊥
    cons-ne-nil e = cc

error_if-nil : (b : Bool) (e : OptionError) → error_if b e ≡ [] → b ≡ false
error_if-nil true e h = cc
error_if-nil false e h = refl

nil-error_if : (b : Bool) (e : OptionError) → b ≡ false → error_if b e ≡ []
nil-error_if b e h = rw h

-- The four tests, all passed.
passed :
    (a b c d : Bool) (e f g h : OptionError)
    → (error_if a e ++ error_if b f ++ error_if c g ++ error_if d h ≡ [])
      ↔ ((a ≡ false) × (b ≡ false) × (c ≡ false) × (d ≡ false))
passed a b c d e f g h = (
  λ n.
      let r = append-nil_left (error_if a e ++ error_if b f ++ error_if c g) (error_if d h) n in
      let s = append-nil_left (error_if a e ++ error_if b f) (error_if c g) r.0 in
      let t = append-nil_left (error_if a e) (error_if b f) s.0 in
      (error_if-nil a e t.0, error_if-nil b f t.1, error_if-nil c g s.1, error_if-nil d h r.1),
  λ (p, q, r, s). rw (p, q, r, s),
)

is_empty_iff : (s : String) → ((s == "") ≡ true) ↔ (s ≡ "")
is_empty_iff s = Eq.beq_iff string_eq s ""

validate-IsAccepted : (o : KubeletClientOptions) → validate o ≡ [] → IsAccepted o
unfolding validate
validate-IsAccepted o h =
    let (a, b, c, d) = (passed _ _ _ _ _ _ _ _).0 h in
    let f = is_empty_iff o.kubelet_ca_file in
    let k = is_empty_iff o.kubelet_client_key_file in
    let t = is_empty_iff o.kubelet_client_cert_file in
    record {
      ca_or_insecure = ground (arith, a, f);
      key_and_cert = (λ e. ground (arith, b, k, t), λ e. ground (arith, b, k, t));
      timeout = ground (arith, c);
      port_low = ground (arith, d);
      port_high = ground (arith, d);
    }

IsAccepted-validate : (o : KubeletClientOptions) → IsAccepted o → validate o ≡ []
unfolding validate
IsAccepted-validate o a =
    let f = is_empty_iff o.kubelet_ca_file in
    let k = is_empty_iff o.kubelet_client_key_file in
    let t = is_empty_iff o.kubelet_client_cert_file in
    (passed _ _ _ _ _ _ _ _).1 (
      ground (arith, a.ca_or_insecure, f),
      ground (arith, a.key_and_cert, k, t),
      ground (arith, a.timeout),
      ground (arith, a.port_low, a.port_high),
    )

-- The kubelet options pass without an error exactly if a CA file and insecure TLS are not both
-- given, the client key and certificate are given together, the timeout is positive and the port
-- lies in 1 to 65535.
pub validate_iff : (o : KubeletClientOptions) → (validate o ≡ []) ↔ IsAccepted o
validate_iff o = (validate-IsAccepted o, IsAccepted-validate o)

-- The defaults pass both checks.
pub defaults_pass :
    (validate new_kubelet_client_options ≡ []) × (validate_storage new_storage_metrics_options ≡ [])
unfolding validate validate_storage new_kubelet_client_options new_storage_metrics_options
defaults_pass = (refl, refl)
