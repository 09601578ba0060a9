-- ===== src/Setup/Declarations.antt =====
-- Setup functions together with what they declare, and what their runs add to the topology.
use go_messaging_nats.Base.{
  String, Bool, true, false, List, [], ◌∷◌, ◌++◌, ◌≡◌, refl, sym, ap, ◌∙◌, arith, if◌then◌else◌,
  append-nil, append_assoc,
}
use go_messaging_nats.Base.Text.{concat}
use go_messaging_nats.Errors.{ok}
use go_messaging_nats.Messaging.{Endpoint, Topology}
use go_messaging_nats.Connection.{State}
use go_messaging_nats.Connection.Monad.{M, wrapped}
use go_messaging_nats.Connection.Start.{Setup, run_setups, apply_setups, with_default_span_name}
use go_messaging_nats.Connection.Keeps.{Same, bind_result-eq-ok, wrapped-eq-ok}
use go_messaging_nats.Setup.Declares.{Declares, extended}

-- A setup function together with what it declares.
pub record Declaration : Type 0 where
  pub setup : Setup
  pub declared : String → List Endpoint
  pub correct : Declares setup.apply declared

abbrev pub setups : List Declaration → List Setup
setups [] = []
setups (d ∷ ds) = d.setup ∷ setups ds

-- All endpoints that the setup functions declare, in their order.
abbrev pub declared_by : List Declaration → String → List Endpoint
declared_by [] service = []
declared_by (d ∷ ds) service = d.declared service ++ declared_by ds service

-- The run of some setup functions has added their endpoints and kept the rest.
pub record HasDeclared (ds : List Declaration) (s t : State) : Type 0 where
  pub topology : t.conn.topology ≡ extended s.conn.topology (declared_by ds s.conn.service_name)
  pub service : t.conn.service_name ≡ s.conn.service_name

extended-nil : (t : Topology) → t ≡ extended t []
extended-nil t = ap (λ es. record t { endpoints = es }) (sym (append-nil t.endpoints))

HasDeclared-cons :
    (d : Declaration) (ds : List Declaration) (s t : State)
    → (d.setup.apply s).0 ≡ ok tt
    → HasDeclared ds (d.setup.apply s).1 t
    → HasDeclared (d ∷ ds) s t
HasDeclared-cons d ds s t e h = record {
  topology =
      h.topology
      ∙ (rw (d.correct.topology s e, d.correct.service s)
          (ap (λ es. record (s.conn.topology) { endpoints = es })
            (append_assoc s.conn.topology.endpoints (d.declared s.conn.service_name)
              (declared_by ds s.conn.service_name))));
  service = h.service ∙ d.correct.service s;
}

pub run_setups-HasDeclared :
    (ds : List Declaration) (s : State)
    → (run_setups (setups ds) s).0 ≡ ok tt
    → HasDeclared ds s (run_setups (setups ds) s).1
unfolding run_setups
run_setups-HasDeclared [] s e = record { topology = extended-nil s.conn.topology; service = refl }
run_setups-HasDeclared (d ∷ ds) s e =
    let text = concat ("setup function <" ∷ d.setup.name ∷ "> failed: " ∷ []) in
    let (a, first, rest) =
      bind_result-eq-ok (wrapped text "" (d.setup.apply s).0) (d.setup.apply s).1
        (λ _. run_setups (setups ds)) e in
    rw rest (
      HasDeclared-cons d ds s _ (wrapped-eq-ok text "" _ first)
        (run_setups-HasDeclared ds (d.setup.apply s).1 (sym (ap (λ r. r.0) rest) ∙ e)))

pub apply_setups-HasDeclared :
    (ds : List Declaration) (s : State)
    → (apply_setups (setups ds) s).0 ≡ ok tt
    → HasDeclared ds s (apply_setups (setups ds) s).1
unfolding apply_setups
apply_setups-HasDeclared [] s e = record { topology = extended-nil s.conn.topology; service = refl }
apply_setups-HasDeclared (d ∷ ds) s e =
    let (a, first, rest) =
      bind_result-eq-ok (d.setup.apply s).0 (d.setup.apply s).1 (λ _. apply_setups (setups ds)) e in
    rw rest (
      HasDeclared-cons d ds s _ first
        (apply_setups-HasDeclared ds (d.setup.apply s).1 (sym (ap (λ r. r.0) rest) ∙ e)))

pub HasDeclared-left :
    (ds : List Declaration) {s s' t : State} → Same s s' → HasDeclared ds s' t → HasDeclared ds s t
HasDeclared-left ds {s} {s'} {t} k h = record {
  topology = h.topology ∙ (λ i. extended (k.topology i) (declared_by ds (k.service i)));
  service = h.service ∙ k.service;
}

pub HasDeclared-right :
    (ds : List Declaration) {s t u : State} → HasDeclared ds s t → Same t u → HasDeclared ds s u
HasDeclared-right ds h k = record {
  topology = k.topology ∙ h.topology;
  service = k.service ∙ h.service;
}

-- A successful run of `m` has declared the endpoints.
abbrev pub DeclaresAll : List Declaration → M (Unit {0}) → Type 0
DeclaresAll ds m = (s : State) → (m s).0 ≡ ok tt → HasDeclared ds s (m s).1

pub if-DeclaresAll :
    (ds : List Declaration) (b : Bool) (f g : M (Unit {0}))
    → DeclaresAll ds f
    → DeclaresAll ds g
    → DeclaresAll ds (if b then f else g)
if-DeclaresAll ds true f g hf hg = hf
if-DeclaresAll ds false f g hf hg = hg

pub span_name-Same : (s : State) → Same s (record s { conn = with_default_span_name s.conn })
span_name-Same s = ground arith
