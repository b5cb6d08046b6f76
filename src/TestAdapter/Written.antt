-- ===== src/TestAdapter/Written.antt =====
-- What a written metric reads as.
use storage_metrics_server.Base.{
  ◌≡◌, refl, String, Bool, true, false, ◌&&◌, Option, none, some, Result, ok, err, if◌then◌else◌,
  lookup-insert, insert, arith,
}
use storage_metrics_server.Storage.Types.{NamespacedName, Time}
use storage_metrics_server.Api.{
  CustomMetricInfo, Quantity, ObjectReference, Error, normalized, Normalization,
  new_metric_not_found_for_selector_error,
}
use storage_metrics_server.Api.Helpers.{reference_for}
use storage_metrics_server.Registry.External.{Labels}
use storage_metrics_server.TestAdapter.{
  key_eq, same_key, same_key_iff, StoredValue, TestingProvider, WriteRequest, LabelCalls, labels_of,
  name_of, written_key, update_metric, stored_for, value_for, identifier_selector, metric_for,
  get_metric_by_name,
}

module _ {S : Type 0} (l : LabelCalls S) (now : Time) (r : WriteRequest) (p : TestingProvider) where
  abbrev pub after_write : TestingProvider
  after_write = (update_metric l now r p).1

  -- Normalization gives the info no error.
  abbrev pub is_normal : Normalization → Bool
  is_normal n = elim n.error [ none ↦ true | some e ↦ false ]

  -- The query asks for the key that the request writes.
  abbrev pub asks_written : CustomMetricInfo → NamespacedName → Bool
  asks_written info name =
      let n = normalized p.mapper.mapper info in
      is_normal n && same_key (written_key l p r) (record { info = n.info; name = name })

  -- What a query of a stored value answers.
  abbrev pub reading :
      StoredValue → CustomMetricInfo → NamespacedName → S → Result Error StoredValue
  reading value info name metric_selector =
      let n = normalized p.mapper.mapper info in
      if l.matches metric_selector value.labels
      then ok value
      else err (
          new_metric_not_found_for_selector_error n.info.group_resource n.info.metric name.name
            (l.text_of metric_selector))

  accepted :
      (value : Quantity) (labels : Labels)
      → r.entity ≡ ok value
      → labels_of l r.labels ≡ ok labels
      → update_metric l now r p ≡ (
        none,
        record p {
          values =
              insert
                (written_key l p r)
                (record { labels = labels; value = value; timestamp = now })
                p.values;
        },
      )
  unfolding update_metric
  accepted value labels e f = ground (arith, e, f)

  -- After a request whose body and labels can be read, the queries whose normalized info and name are
  -- what the request wrote read the written value with the time of the write, or are told that the
  -- selector does not match its labels; all other queries read what they read before.
  pub value_for-update_metric :
      (value : Quantity) (labels : Labels) (info : CustomMetricInfo) (name : NamespacedName)
      (metric_selector : S)
      → r.entity ≡ ok value
      → labels_of l r.labels ≡ ok labels
      → value_for l after_write info name metric_selector ≡ (
          if asks_written info name
          then reading
              (record { labels = labels; value = value; timestamp = now })
              info
              name
              metric_selector
          else value_for l p info name metric_selector)
  unfolding value_for stored_for
  value_for-update_metric value labels info name metric_selector e f =
      let n = normalized p.mapper.mapper info in
      ground (
        arith,
        accepted value labels e f,
        lookup-insert (written_key l p r) (record { info = n.info; name = name })
            (record { labels = labels; value = value; timestamp = now }) p.values,
      )

  asked-written :
      (info : CustomMetricInfo) (name : NamespacedName)
      → (normalized p.mapper.mapper info).error ≡ none
      → (normalized p.mapper.mapper info).info ≡ (written_key l p r).info
      → name ≡ (written_key l p r).name
      → asks_written info name ≡ true
  asked-written info name e f g = ground (
    arith,
    e,
    f,
    g,
    same_key_iff (written_key l p r)
        (record { info = (normalized p.mapper.mapper info).info; name = name }),
  )

  -- A metric that is written is read back by name: with any spelling of the resource that normalizes
  -- to what was written, and a selector that matches the written labels, the answer is the object's
  -- reference, the asked metric and selector, and the written value with the time of the write.
  pub get_metric_by_name-update_metric :
      (value : Quantity) (labels : Labels) (info : CustomMetricInfo) (metric_selector : S)
      (reference : ObjectReference) (selector : Option String)
      → r.entity ≡ ok value
      → labels_of l r.labels ≡ ok labels
      → (normalized p.mapper.mapper info).error ≡ none
      → (normalized p.mapper.mapper info).info ≡ (written_key l p r).info
      → l.matches metric_selector labels ≡ true
      → reference_for p.mapper (name_of l r) info ≡ ok reference
      → identifier_selector l metric_selector ≡ ok selector
      → get_metric_by_name l after_write (name_of l r) info metric_selector
        ≡ ok (record {
          described_object = reference;
          metric_name = info.metric;
          selector = selector;
          timestamp = now;
          value = value;
        })
  unfolding get_metric_by_name metric_for written_key
  get_metric_by_name-update_metric value labels info metric_selector reference selector e f g h m d
        s =
      ground (
        arith,
        value_for-update_metric value labels info (name_of l r) metric_selector e f,
        asked-written info (name_of l r) g h refl,
        accepted value labels e f,
        m,
        d,
        s,
      )
