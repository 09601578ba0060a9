-- ===== src/Routing/Matching.antt =====
-- Which handler a message finds, whatever the iteration order of the map.
use mathlib.Core.List.Permᴰ
use go_messaging_nats.Base.{
  String, [], ◌∷◌, ◌++◌, Option, none, some, ◌≡◌, sym, ◌∙◌, true, false, arith, Bool-cases, inl,
  inr, eq_iff, ◌≢◌, ◌↔◌, is_some, ap, Option-cases,
}
use go_messaging_nats.Base.GoMap.{lookup, HasDistinctKeys}
use go_messaging_nats.Base.GoMap.Order.{IsOrderOf, SameLookups, order-SameLookups}
use go_messaging_nats.Messaging.{Messaging}
use go_messaging_nats.Handler.{WrappedHandler}
use go_messaging_nats.Routing.{RoutingKeyHandler, get}

module _ (m : Messaging) (key : String) where
  -- The pattern matches the routing key.
  abbrev pub Matches : String → Type 0
  Matches p = m.match_routing_key p key ≡ true

  -- A registered pattern that matches, with its handler.
  pub record Found (h : RoutingKeyHandler) (handler : WrappedHandler) : Type 0 where
    pub pattern_key : String
    pub matches : Matches pattern_key
    pub registered : lookup pattern_key h ≡ some handler

  lookup-is_some-tail :
      (p j : String) (w : WrappedHandler) (h : RoutingKeyHandler) (f : WrappedHandler)
      → is_some (lookup j h) ≡ false
      → lookup p h ≡ some f
      → lookup p ((j, w) ∷ h) ≡ some f
  lookup-is_some-tail p j w h f d e = ground (arith, eq_iff j p)

  get-Found_order :
      (order : RoutingKeyHandler) (f : WrappedHandler)
      → HasDistinctKeys order
      → get m order key ≡ some f
      → Found order f
  unfolding get
  get-Found_order [] f d e = cc
  get-Found_order ((j, w) ∷ order) f d e = elim (Bool-cases (m.match_routing_key j key)) [
    | inl hit ↦ record { pattern_key = j; matches = hit; registered = ground (arith, eq_iff j j) }
    | inr miss ↦
        let found = get-Found_order order f d.1 (rw (miss, get) at e) in
        record {
          pattern_key = found.pattern_key;
          matches = found.matches;
          registered = lookup-is_some-tail found.pattern_key j w order f d.0 found.registered;
        }
  ]

  -- Whatever the order of iteration, a handler that `get` returns is one that is registered under a
  -- pattern that matches the routing key.
  pub get-Found :
      (h order : RoutingKeyHandler) (f : WrappedHandler)
      → HasDistinctKeys h
      → IsOrderOf h order
      → get m order key ≡ some f
      → Found h f
  get-Found h order f d o e =
      let s = order-SameLookups h order o d in
      let found = get-Found_order order f s.distinct e in
      record {
        pattern_key = found.pattern_key;
        matches = found.matches;
        registered = s.same found.pattern_key ∙ found.registered;
      }

  get_order_of_match :
      (order : RoutingKeyHandler) (p : String) (f : WrappedHandler)
      → Matches p
      → lookup p order ≡ some f
      → get m order key ≢ none
  unfolding get
  get_order_of_match [] p f hit e = cc
  get_order_of_match ((j, w) ∷ order) p f hit e =
      ground (arith, eq_iff j p, get_order_of_match order p f hit)

  -- Only one registered pattern matches the key.
  abbrev pub IsOnlyMatch : RoutingKeyHandler → String → Type 0
  IsOnlyMatch h p = (q : String) → Matches q → is_some (lookup q h) ≡ true → q ≡ p

  -- Where exactly one registered pattern matches, `get` returns its handler in every order of
  -- iteration of a map with distinct keys.
  pub get_of_IsOnlyMatch :
      (h order : RoutingKeyHandler) (p : String) (f : WrappedHandler)
      → HasDistinctKeys h
      → IsOrderOf h order
      → Matches p
      → lookup p h ≡ some f
      → IsOnlyMatch h p
      → get m order key ≡ some f
  get_of_IsOnlyMatch h order p f d o hit e only = elim (Option-cases (get m order key)) [
    | inl missing ↦ absurd (get_order_of_match order p f hit (sym (s.same p) ∙ e) missing)
    | inr (g, found) ↦
        let by = get-Found h order g d o found in
        let same = only by.pattern_key by.matches (ap is_some by.registered) in
        found ∙ sym by.registered ∙ ap (λ q. lookup q h) same ∙ e
  ]
    where
      s : SameLookups h order
      s = order-SameLookups h order o d

  -- In every order of iteration of a map with distinct keys, `get` finds no handler exactly if no
  -- registered pattern matches.
  pub get-eq-none_iff :
      (h order : RoutingKeyHandler)
      → HasDistinctKeys h
      → IsOrderOf h order
      → (get m order key ≡ none) ↔ ((p : String) → Matches p → lookup p h ≡ none)
  get-eq-none_iff h order d o = (
    λ missing p hit. elim (Option-cases (lookup p h)) [
      | inl e ↦ e
      | inr (f, e) ↦ absurd (get_order_of_match order p f hit (sym (s.same p) ∙ e) missing)
    ],
    λ all. elim (Option-cases (get m order key)) [
      | inl e ↦ e
      | inr (f, found) ↦
          let by = get-Found h order f d o found in
          absurd (none≢some (sym (all by.pattern_key by.matches) ∙ by.registered))
    ],
  )
    where
      s : SameLookups h order
      s = order-SameLookups h order o d

      none≢some : {f : WrappedHandler} → ◌≢◌ {A = Option WrappedHandler} none (some f)
      none≢some e = cc

  -- Where several registered patterns match, each of them wins in some order of iteration: the
  -- handler of a message is then not determined by the registrations.
  pub get_any_match :
      (xs ys : RoutingKeyHandler) (p : String) (f : WrappedHandler)
      → Matches p
      → (order : RoutingKeyHandler) × IsOrderOf (xs ++ (p, f) ∷ ys) order
        × (get m order key ≡ some f)
  unfolding get
  get_any_match xs ys p f hit = ((p, f) ∷ (xs ++ ys), Permᴰ.middle (p, f) xs ys, rw (hit, get))
