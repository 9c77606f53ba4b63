-- ===== src/Policy/Calls.antt =====
-- Histories of calls on `InMemoryPolicyStore` and its evaluator, of
-- packages/signer-policy/src/index.ts: how the sets and the maps of the store evolve.
use universal_smart_wallet.Prelude.{
  String, true, ◌≡◌, inl, inr, sym, ap, ◌∙◌, List, [], ◌∷◌, Option, some, arith, eq_iff, eq_refl,
  includes, Result-cases, lookup, lookup-insert, ok, err,
}
use universal_smart_wallet.Policy.{SignerPolicy, SignerSession, AuthorizationRequest, Reservation}
use universal_smart_wallet.Policy.Texts.{Checked}
use universal_smart_wallet.Policy.Memory.{
  Memory, add, put_policy, put_session, revoke_policy, revoke_session, reserve, in_memory,
}
use universal_smart_wallet.Policy.Authorize.{StepUp, authorize, check}

pub data Call : Type 0 where
  puts_policy : SignerPolicy → Call
  puts_session : SignerSession → Call
  revokes_policy revokes_session : String → Call
  authorizes : AuthorizationRequest → Call

-- What a call that throws would have stored is not stored.
abbrev pub kept : Memory → Checked Memory → Memory
kept m (ok n) = n
kept m (err e) = m

unfoldable pub step : Option StepUp → Memory → Call → Memory
step port m (puts_policy p) = kept m (put_policy p m)
step port m (puts_session s) = kept m (put_session s m)
step port m (revokes_policy id) = revoke_policy id m
step port m (revokes_session id) = revoke_session id m
step port m (authorizes r) = (authorize in_memory port r m).1

unfoldable pub run : Option StepUp → Memory → List Call → Memory
run port m [] = m
run port m (call ∷ calls) = run port (step port m call) calls

-- A property that every call keeps is kept by every history.
run_induction {ℓ} :
    (P : Memory → Type ℓ) (port : Option StepUp)
    → ((m : Memory) (call : Call) → P m → P (step port m call))
    → (m : Memory) (calls : List Call) → P m
    → P (run port m calls)
unfolding run
run_induction P port keeps m [] p = p
run_induction P port keeps m (call ∷ calls) p =
    run_induction P port keeps (step port m call) calls (keeps m call p)

-- The sets only grow, and the maps hold each entry under its own identifier.
pub record Grown (before after : Memory) : Type 0 where
  pub consumed :
      (id : String)
      → includes id before.consumed_request_ids ≡ true
      → includes id after.consumed_request_ids ≡ true
  pub policies :
      (id : String)
      → includes id before.revoked_policies ≡ true
      → includes id after.revoked_policies ≡ true
  pub sessions :
      (id : String)
      → includes id before.revoked_sessions ≡ true
      → includes id after.revoked_sessions ≡ true

pub record WellKeyed (m : Memory) : Type 0 where
  pub policies : (id : String) (p : SignerPolicy) → lookup id m.policies ≡ some p → p.policy_id ≡ id
  pub sessions :
      (id : String) (s : SignerSession) → lookup id m.sessions ≡ some s → s.session_id ≡ id

pub includes-add :
    (s t : String) (ss : List String) → includes s ss ≡ true → includes s (add t ss) ≡ true
unfolding includes
includes-add s t ss h = ground arith

pub includes-add_self : (s : String) (ss : List String) → includes s (add s ss) ≡ true
unfolding includes
includes-add_self s ss = ground (arith, eq_refl s)

module _ (port : Option StepUp) (m : Memory) where
  reserve-Grown : (input : Reservation) → Grown m (reserve input m).1
  unfolding reserve
  reserve-Grown input = record {
    consumed = λ id h. ground (arith, includes-add id input.request_id m.consumed_request_ids);
    policies = λ id h. ground arith;
    sessions = λ id h. ground arith;
  }

  authorize-Grown : (r : AuthorizationRequest) → Grown m (authorize in_memory port r m).1
  unfolding authorize
  authorize-Grown r = elim (Result-cases (check in_memory port r m)) [
    | inr (e, ee) ↦ record {
      consumed = λ id h. ground arith;
      policies = λ id h. ground arith;
      sessions = λ id h. ground arith;
    }
    | inl (input, ee) ↦
        let g = reserve-Grown input in
        record {
          consumed = λ id h. ground (arith, g.consumed id h);
          policies = λ id h. ground (arith, g.policies id h);
          sessions = λ id h. ground (arith, g.sessions id h);
        }
  ]

  step-Grown : (call : Call) → Grown m (step port m call)
  unfolding step put_policy put_session revoke_policy revoke_session
  step-Grown (puts_policy p) = record {
    consumed = λ id h. ground arith;
    policies = λ id h. ground arith;
    sessions = λ id h. ground arith;
  }
  step-Grown (puts_session s) = record {
    consumed = λ id h. ground arith;
    policies = λ id h. ground arith;
    sessions = λ id h. ground arith;
  }
  step-Grown (revokes_policy t) = record {
    consumed = λ id h. h;
    policies = λ id h. includes-add id t m.revoked_policies h;
    sessions = λ id h. h;
  }
  step-Grown (revokes_session t) = record {
    consumed = λ id h. h;
    policies = λ id h. h;
    sessions = λ id h. includes-add id t m.revoked_sessions h;
  }
  step-Grown (authorizes r) = authorize-Grown r

  -- An authorization leaves the policies and the sessions.
  authorize-maps :
      (r : AuthorizationRequest)
      → ((authorize in_memory port r m).1.policies ≡ m.policies)
        × ((authorize in_memory port r m).1.sessions ≡ m.sessions)
  unfolding authorize reserve
  authorize-maps r = (ground arith, ground arith)

  pub step-WellKeyed : (call : Call) → WellKeyed m → WellKeyed (step port m call)
  unfolding step put_policy put_session revoke_policy revoke_session
  step-WellKeyed (puts_policy p) w = record {
    policies = λ id q h.
        ground (
          arith,
          lookup-insert p.policy_id id p m.policies,
          w.policies id q,
          eq_iff p.policy_id id,
        );
    sessions = λ id q h. ground (arith, w.sessions id q);
  }
  step-WellKeyed (puts_session s) w = record {
    policies = λ id q h. ground (arith, w.policies id q);
    sessions = λ id q h. ground (
      arith,
      lookup-insert s.session_id id s m.sessions,
      w.sessions id q,
      eq_iff s.session_id id,
    );
  }
  step-WellKeyed (revokes_policy t) w = record { policies = w.policies; sessions = w.sessions }
  step-WellKeyed (revokes_session t) w = record { policies = w.policies; sessions = w.sessions }
  step-WellKeyed (authorizes r) w =
      let maps = authorize-maps r in
      record {
        policies = λ id q h. w.policies id q (sym (ap (lookup id) maps.0) ∙ h);
        sessions = λ id q h. w.sessions id q (sym (ap (lookup id) maps.1) ∙ h);
      }

pub run-Grown : (port : Option StepUp) (m : Memory) (calls : List Call) → Grown m (run port m calls)
run-Grown port m calls =
    run_induction (Grown m) port
      (λ n call g.
        let h = step-Grown port n call in
        record {
          consumed = λ id e. h.consumed id (g.consumed id e);
          policies = λ id e. h.policies id (g.policies id e);
          sessions = λ id e. h.sessions id (g.sessions id e);
        })
      m calls (record { consumed = λ id e. e; policies = λ id e. e; sessions = λ id e. e })

-- Every store that a history leaves is well keyed, if it was so before.
pub run-WellKeyed :
    (port : Option StepUp) (m : Memory) (calls : List Call)
    → WellKeyed m
    → WellKeyed (run port m calls)
run-WellKeyed port m calls w = run_induction WellKeyed port (step-WellKeyed port) m calls w
