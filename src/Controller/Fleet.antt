-- ===== src/Controller/Fleet.antt =====
-- The registered agents over a run of the controller (`register_agent` of app/core/controller.py).
use codestra_middleware.Base.{
  ◌≡◌, refl, sym, ◌∙◌, ap, subst, Bool, true, false, not, ◌||◌, Option, none, some, List, String,
  ok, ◌==◌, string_eq, lookup, lookup-insert, Bool-cases, inl, inr, eq-of_==, arith, >>=-elim,
  raise_if-elim, or_raise, contains, nat_beq,
}
use codestra_middleware.Raised.{Raised}
use codestra_middleware.Text.{lower, size}
use codestra_middleware.Controller.Servers.{
  Registration, AgentRecord, agent_profiles, agent_identities, agent_endpoints, is_hex,
  checked_agent,
}
use codestra_middleware.Controller.Tokens.{Signer}
use codestra_middleware.Controller.Tasks.{Hashes, Paths, Controller, audit}
use codestra_middleware.Controller.Runs.{
  Op, Effect, unchanged, added, moved, ran, registered, opened, run, run-keeps,
}

-- The agent of a server has the identity and the endpoint of that server, a known profile and a
-- fingerprint of 64 digits, is not open to the public, and is not enabled.
abbrev pub IsVetted : String → AgentRecord → Type 0
IsVetted server_id a =
    (lookup server_id agent_identities ≡ some a.registration.spiffe_id)
    × (lookup server_id agent_endpoints ≡ some a.registration.private_endpoint)
    × (contains a.registration.profile agent_profiles ≡ true)
    × (nat_beq (size a.registration.certificate_sha256) 64 ≡ true)
    × (is_hex a.registration.certificate_sha256 ≡ true)
    × (a.registration.public_listener ≡ false)
    × (a.enabled ≡ false)

abbrev pub AreVetted : Controller → Type 0
AreVetted c =
    (server_id : String) (a : AgentRecord)
    → lookup server_id c.agents ≡ some a
    → IsVetted server_id a

known_value : {A : Type 0} (o : Option A) (e : Raised) (a : A) → or_raise o e ≡ ok a → o ≡ some a
known_value none e a h = cc
known_value (some b) e a h = cc

unnegate : (b : Bool) → not b ≡ false → b ≡ true
unnegate b e = ground arith

checked_agent-IsVetted :
    (hash : Registration → String) (r : Registration) (a : AgentRecord)
    → checked_agent hash r ≡ ok a
    → IsVetted r.server_id a
unfolding checked_agent
checked_agent-IsVetted hash r a e =
    >>=-elim (or_raise (lookup r.server_id agent_identities) _) _ e λ identity known e₁.
      >>=-elim (or_raise (lookup r.server_id agent_endpoints) _) _ e₁ λ endpoint there e₂.
        raise_if-elim (not (r.spiffe_id == identity)) _ _ e₂ λ same e₃.
          raise_if-elim (not (r.private_endpoint == endpoint)) _ _ e₃ λ at_home e₄.
            raise_if-elim (not (contains r.profile agent_profiles)) _ _ e₄ λ profile e₅.
              raise_if-elim
                (not (nat_beq (size (lower r.certificate_sha256)) 64)
                  || not (is_hex (lower r.certificate_sha256)))
                _ _ e₅
                λ print e₆. raise_if-elim r.public_listener _ _ e₆ λ hidden e₇.
                  let is_spiffe = eq-of_== r.spiffe_id identity (unnegate _ same) in
                  let is_endpoint = eq-of_== r.private_endpoint endpoint (unnegate _ at_home) in
                  let made : IsVetted r.server_id (record {
                    registration = record r { certificate_sha256 = lower r.certificate_sha256 };
                    enabled = false;
                    registration_hash = hash r;
                  }) =
                    (
                      known_value _ _ identity known ∙ ap some (sym is_spiffe),
                      known_value _ _ endpoint there ∙ ap some (sym is_endpoint),
                      unnegate _ profile,
                      ground arith,
                      ground arith,
                      hidden,
                      refl,
                    ) in
                  let same_agent : record {
                    registration = record r { certificate_sha256 = lower r.certificate_sha256 };
                    enabled = false;
                    registration_hash = hash r;
                  }
                      ≡ a =
                    cc e₇ in
                  subst (IsVetted r.server_id) same_agent made

Effect-AreVetted :
    (h : Hashes) (s : Signer) (op : Op) (c c' : Controller)
    → AreVetted c
    → Effect h s op c c'
    → AreVetted c'
unfolding audit
Effect-AreVetted h s op c c' v unchanged = v
Effect-AreVetted h s op c c' v (added now fresh _ _) = v
Effect-AreVetted h s op c c' v (moved now id old new action details _ _ _ _ _ _) = v
Effect-AreVetted h s op c c' v (registered r new checked) = λ id a e.
    elim (Bool-cases (r.server_id == id)) [
      | inl same ↦
          let here : new ≡ a = cc (rw (lookup-insert, same) at e) in
          subst (λ x. IsVetted id x) here
            (subst (λ j. IsVetted j new) (eq-of_== r.server_id id same)
              (checked_agent-IsVetted h.of_registration r new checked))
      | inr other ↦ v id a (rw (lookup-insert, other) at e)
    ]
Effect-AreVetted h s op c c' v (opened w) = v
Effect-AreVetted h s op c c' v (ran now id token d task claims left x _ _ _) = v

-- After any calls, every registered agent is one of the four known servers, under the identity and the
-- endpoint of that server, with a known profile and a fingerprint of 64 hexadecimal digits, is not open
-- to the public, and is not enabled.
pub run-AreVetted :
    (h : Hashes) (s : Signer) (fs : Paths) (roots : List String) (ops : List Op) (c : Controller)
    → AreVetted c
    → AreVetted (run h s fs roots ops c)
run-AreVetted h s fs roots = run-keeps h s fs roots AreVetted (Effect-AreVetted h s)
