-- ===== src/Outbox/Copying.antt =====
-- What PublishRaw sends: the caller's headers, in whatever order the loop meets them.
use go_messaging_nats.Base.{
  String, [], ◌∷◌, Option, none, some, or_default, ◌≡◌, refl, sym, ap, ◌∙◌, ◌==◌, false, Bool-cases,
  inl, inr, eq_iff, is_some,
}
use go_messaging_nats.Base.GoMap.{GoMap, lookup, HasDistinctKeys}
use go_messaging_nats.Base.GoMap.Order.{IsOrderOf, order-SameLookups}
use go_messaging_nats.Errors.{err, sentinel, publisher_not_wired}
use go_messaging_nats.Nats.{Bytes, Context, NatsHeader, HeaderOps, IsHeaderOps}
use go_messaging_nats.Nats.Lookups.{get-set}
use go_messaging_nats.Connection.{Publisher, PublishFn}
use go_messaging_nats.Publisher.{Env, subject_of}
use go_messaging_nats.Outbox.{copy_headers, raw_message, publish_raw}

-- The value that is read where the entries `order` are written over `base`.
abbrev pub written : GoMap String → String → String → String
written order k base = or_default (lookup k order) base

or_default_missing :
    (o : Option String) (base : String) → is_some o ≡ false → or_default o base ≡ base
or_default_missing none base h = refl
or_default_missing (some v) base h = cc

get-copy_headers :
    (ops : HeaderOps) (laws : IsHeaderOps ops) (nh : NatsHeader) (order : GoMap String) (k : String)
    → HasDistinctKeys order
    → ops.get (copy_headers ops nh order) k ≡ written order k (ops.get nh k)
unfolding copy_headers
get-copy_headers ops laws nh [] k d = refl
get-copy_headers ops laws nh ((j, v) ∷ order) k d =
    get-copy_headers ops laws (ops.set nh j v) order k d.1 ∙ (elim (Bool-cases (j == k)) [
      | inl same ↦
          let found : ops.get (ops.set nh j v) k ≡ v = get-set ops laws nh j k v ∙ (rw same) in
          let once = ap (λ i. is_some (lookup i order)) (sym ((eq_iff j k).0 same)) ∙ d.0 in
          rw (found, same) (or_default_missing (lookup k order) v once)
      | inr differ ↦
          let kept : ops.get (ops.set nh j v) k ≡ ops.get nh k =
            get-set ops laws nh j k v ∙ (rw differ) in
          rw (kept, differ)
    ])

get-empty : (ops : HeaderOps) (laws : IsHeaderOps ops) (k : String) → ops.get [] k ≡ ""
get-empty ops laws k = laws.get-lookup [] k

module _ (env : Env) (laws : IsHeaderOps env.header_ops) (p : Publisher) (ctx : Context)
    (key : String) (payload : Bytes) (headers order : GoMap String) where
  -- PublishRaw on a publisher that is not wired returns ErrPublisherNotWired and sends nothing. On a
  -- wired one it hands one message to the client and returns the client's answer; the message has the
  -- publisher's subject for the routing key, the payload unchanged, and reads every header of the
  -- caller's map with its value and any other as empty, in every iteration order of that map.
  pub publish_raw_lem :
      HasDistinctKeys headers
      → IsOrderOf headers order
      → let message = raw_message env p key payload order in
        (p.publish_fn ≡ none
          → publish_raw env p ctx key payload order ≡ (none, err (sentinel publisher_not_wired)))
        × ((fn : PublishFn)
            → p.publish_fn ≡ some fn
            → publish_raw env p ctx key payload order
              ≡ (some (record { via = fn; message = message }), env.send fn ctx message))
        × (message.subject ≡ subject_of env p key)
        × (message.payload ≡ payload)
        × ((k : String) → env.header_ops.get message.header k ≡ written headers k "")
  unfolding publish_raw raw_message
  publish_raw_lem distinct walk =
      let same = order-SameLookups headers order walk distinct in
      (
        (λ e. rw e refl),
        (λ fn e. rw e refl),
        refl,
        refl,
        (λ k.
            get-copy_headers env.header_ops laws [] order k same.distinct
            ∙ (rw (get-empty env.header_ops laws k, same.same k))),
      )
