-- ===== src/Integration/Trace.antt =====
-- The correlation identifier across the call: RoundTrip of the ordering's aclhttp/transport.go, and the
-- middleware of shared/correlation/corrhttp before the inventory's handlers.
use go_ddd_template.Base.{
  String, true, false, ◌≡◌, ◌⊎◌, none, some, is_empty, arith, Option-cases, inl, inr, ap, ◌∙◌,
}
use go_ddd_template.Base.Dict.{Dict, lookup, insert, lookup-insert}
use go_ddd_template.Shared.Correlation.{
  is_hex, traceparent, trace_id_from_traceparent, traceparent_read,
}
use go_ddd_template.Shared.Correlation.Http.{
  own_header, traced_header, refused_header, correlation_id_from_request, header_traceparent,
  header_correlation_id,
}
use go_ddd_template.Ordering.InventoryClient.{outgoing_headers}

-- The headers that go out, by whether Traceparent accepts the identifier.
outgoing_plain :
    (cid new_id : String) (headers : Dict String)
    → is_empty cid ≡ false
    → traceparent new_id cid ≡ none
    → outgoing_headers new_id cid headers ≡ insert header_correlation_id cid headers
unfolding outgoing_headers
outgoing_plain cid new_id headers e t = rw (e, t)

outgoing_traced :
    (cid new_id tp : String) (headers : Dict String)
    → is_empty cid ≡ false
    → traceparent new_id cid ≡ some tp
    → outgoing_headers new_id cid headers
      ≡ insert header_traceparent tp (insert header_correlation_id cid headers)
unfolding outgoing_headers
outgoing_traced cid new_id tp headers e t = rw (e, t)

module _ (cid new_id : String) (headers : Dict String) where
  abbrev with_own : Dict String
  with_own = insert header_correlation_id cid headers

  own_set : lookup header_correlation_id with_own ≡ some cid
  own_set = ground (arith, lookup-insert header_correlation_id header_correlation_id cid headers)

  plain_kept :
      is_empty cid ≡ false
      → lookup header_traceparent headers ≡ none
      → traceparent new_id cid ≡ none
      → correlation_id_from_request (outgoing_headers new_id cid headers) ≡ cid
  plain_kept e h t =
      let untraced : lookup header_traceparent with_own ≡ none =
        ground (arith, h, lookup-insert header_correlation_id header_traceparent cid headers) in
      ap correlation_id_from_request (outgoing_plain cid new_id headers e t)
      ∙ own_header cid with_own untraced own_set

  traced_set :
      (tp : String) → lookup header_traceparent (insert header_traceparent tp with_own) ≡ some tp
  traced_set tp = ground (arith, lookup-insert header_traceparent header_traceparent tp with_own)

  own_kept :
      (tp : String)
      → lookup header_correlation_id (insert header_traceparent tp with_own) ≡ some cid
  own_kept tp =
      ground (arith, own_set, lookup-insert header_traceparent header_correlation_id tp with_own)

  traced_kept :
      (tp : String)
      → is_empty cid ≡ false
      → is_empty tp ≡ false
      → traceparent new_id cid ≡ some tp
      → (trace_id_from_traceparent tp ≡ some cid) ⊎ (trace_id_from_traceparent tp ≡ none)
      → correlation_id_from_request (outgoing_headers new_id cid headers) ≡ cid
  traced_kept tp e f t read =
      ap correlation_id_from_request (outgoing_traced cid new_id tp headers e t) ∙ elim read [
        | inl traced ↦
            traced_header cid tp (insert header_traceparent tp with_own) f (traced_set tp) traced
        | inr refused ↦
            refused_header cid tp (insert header_traceparent tp with_own) f (traced_set tp) refused
              (own_kept tp)
      ]

-- Let the context have a correlation identifier, the request no traceparent yet, and the identifier
-- that id.New makes be hexadecimal. Then the inventory's middleware reads from the outgoing headers
-- the very identifier, whether it can stand in a traceparent or not.
pub correlation_id_from_request-outgoing_headers :
    (cid new_id : String) (headers : Dict String)
    → is_hex new_id ≡ true
    → is_empty cid ≡ false
    → lookup header_traceparent headers ≡ none
    → correlation_id_from_request (outgoing_headers new_id cid headers) ≡ cid
correlation_id_from_request-outgoing_headers cid new_id headers h e f =
    elim (Option-cases (traceparent new_id cid)) [
      | inl t ↦ plain_kept cid new_id headers e f t
      | inr (tp, t) ↦
          let read = traceparent_read new_id cid tp h t in
          traced_kept cid new_id headers tp e read.0 t read.1
    ]
