-- ===== src/Issuance/Evolution.antt =====
-- How the maps of packages/issuer-service/src/index.ts evolve: nothing that is stored is deleted, a
-- session moves along its states, and a grant or an access token that was consumed stays so.
pub mod Parts
pub mod Calls
pub mod Histories
use universal_smart_wallet.Prelude.{
  ◌≡◌, refl, sym, ap, ◌∙◌, subst, inl, inr, String, Bool, true, false, Option, none, some, Result,
  ok, err, Map, lookup, insert, lookup-insert, str_eq, eq_iff, is_some, has, arith, Bool-cases,
  Option-cases, if◌then◌else◌, suc, ltb,
}
use universal_smart_wallet.Issuance.{
  Failure, IssuanceState, IssuanceSession, Grant, AccessToken, Service, Ports,
}

-- One step of a session's state. Any session may expire.
pub data Step : IssuanceState → IssuanceState → Type 0 where
  approves : Step IssuanceState.pending_review IssuanceState.approved
  rejects : Step IssuanceState.pending_review IssuanceState.rejected
  offers : Step IssuanceState.approved IssuanceState.offered
  issues : Step IssuanceState.offered IssuanceState.issued
  doubts : Step IssuanceState.offered IssuanceState.signing_ambiguous
  expires : {a : IssuanceState} → Step a IssuanceState.expired

pub data Reaches : IssuanceState → IssuanceState → Type 0 where
  stays : {a : IssuanceState} → Reaches a a
  steps : {a b c : IssuanceState} → Reaches a b → Step b c → Reaches a c

pub Reaches-trans : {a b c : IssuanceState} → Reaches a b → Reaches b c → Reaches a c
Reaches-trans p stays = p
Reaches-trans p (steps q s) = steps (Reaches-trans p q) s

-- The same session, later.
pub record Later (s t : IssuanceSession) : Type 0 where
  pub tenant : t.tenant_id ≡ s.tenant_id
  pub session : t.session_id ≡ s.session_id
  pub expiry : t.expires_at ≡ s.expires_at
  pub state : Reaches s.state t.state

pub record GrantLater (g h : Grant) : Type 0 where
  pub session : h.session_id ≡ g.session_id
  pub consumed : is_some g.consumed_at ≡ true → is_some h.consumed_at ≡ true

pub record TokenLater (t u : AccessToken) : Type 0 where
  pub session : u.session_id ≡ t.session_id
  pub consumed : is_some t.consumed_at ≡ true → is_some u.consumed_at ≡ true

-- Every entry of the first map is in the second, related to it.
pub record Kept {V : Type 0} (R : V → V → Type 0) (m n : Map V) : Type 0 where
  pub at : (k : String) (v : V) → lookup k m ≡ some v → (w : V) × (lookup k n ≡ some w) × R v w

module _ {V : Type 0} {R : V → V → Type 0} where
  Kept-refl : ((v : V) → R v v) → (m : Map V) → Kept R m m
  Kept-refl h m = record { at = λ k v e. (v, e, h v) }

  Kept-trans :
      {m n o : Map V} → ((u v w : V) → R u v → R v w → R u w) → Kept R m n → Kept R n o → Kept R m o
  Kept-trans t p q = record {
    at = λ k v e.
        let (w, ew, rw_) = p.at k v e in let (x, ex, rx) = q.at k w ew in (x, ex, t v w x rw_ rx);
  }

  -- One entry is written, related to what was there.
  Kept-insert :
      (at : String) (w : V) (m : Map V)
      → ((v : V) → R v v)
      → ((v : V) → lookup at m ≡ some v → R v w)
      → Kept R m (insert at w m)
  Kept-insert at w m r h = record {
    at = λ k v e. elim (Bool-cases (str_eq at k)) [
      | inl same ↦
          let there = lookup-insert at k w m in
          let is_at = (eq_iff at k).0 same in
          (w, ground arith, h v (ap (λ x. lookup x m) is_at ∙ e))
      | inr other ↦ let there = lookup-insert at k w m in (v, ground arith, r v)
    ];
  }

Later-refl : (s : IssuanceSession) → Later s s
Later-refl s = record { tenant = refl; session = refl; expiry = refl; state = stays }

Later-trans : {s t u : IssuanceSession} → Later s t → Later t u → Later s u
Later-trans p q = record {
  tenant = q.tenant ∙ p.tenant;
  session = q.session ∙ p.session;
  expiry = q.expiry ∙ p.expiry;
  state = Reaches-trans p.state q.state;
}

-- The whole service, later.
pub record Evolves (a b : Service) : Type 0 where
  pub sessions : Kept Later a.sessions b.sessions
  pub grants : Kept GrantLater a.grants b.grants
  pub access_tokens : Kept TokenLater a.access_tokens b.access_tokens

sessions-Kept : (a : Service) → Kept Later a.sessions a.sessions
sessions-Kept a = Kept-refl Later-refl a.sessions

grants-Kept : (a : Service) → Kept GrantLater a.grants a.grants
grants-Kept a = Kept-refl (λ g. record { session = refl; consumed = λ h. h }) a.grants

tokens-Kept : (a : Service) → Kept TokenLater a.access_tokens a.access_tokens
tokens-Kept a = Kept-refl (λ t. record { session = refl; consumed = λ h. h }) a.access_tokens

-- A service with the same sessions, grants and access tokens.
pub Evolves-other :
    (a b : Service)
    → a.sessions ≡ b.sessions
    → a.grants ≡ b.grants
    → a.access_tokens ≡ b.access_tokens
    → Evolves a b
Evolves-other a b e f g = record {
  sessions = subst (Kept Later a.sessions) e (sessions-Kept a);
  grants = subst (Kept GrantLater a.grants) f (grants-Kept a);
  access_tokens = subst (Kept TokenLater a.access_tokens) g (tokens-Kept a);
}

pub Evolves-refl : (a : Service) → Evolves a a
Evolves-refl a = Evolves-other a a refl refl refl

pub Evolves-trans : {a b c : Service} → Evolves a b → Evolves b c → Evolves a c
Evolves-trans p q = record {
  sessions = Kept-trans (λ s t u. Later-trans) p.sessions q.sessions;
  grants =
      Kept-trans
        (λ a b c g h. record {
          session = h.session ∙ g.session;
          consumed = λ e. h.consumed (g.consumed e);
        })
        p.grants q.grants;
  access_tokens =
      Kept-trans
        (λ a b c g h. record {
          session = h.session ∙ g.session;
          consumed = λ e. h.consumed (g.consumed e);
        })
        p.access_tokens q.access_tokens;
}

pub Evolves-session :
    (a : Service) (at : String) (t : IssuanceSession)
    → ((s : IssuanceSession) → lookup at a.sessions ≡ some s → Later s t)
    → Evolves a (record a { sessions = insert at t a.sessions })
Evolves-session a at t h = record {
  sessions = Kept-insert at t a.sessions Later-refl h;
  grants = grants-Kept a;
  access_tokens = tokens-Kept a;
}

pub Evolves-grant :
    (a : Service) (at : String) (g : Grant)
    → ((f : Grant) → lookup at a.grants ≡ some f → GrantLater f g)
    → Evolves a (record a { grants = insert at g a.grants })
Evolves-grant a at g h = record {
  sessions = sessions-Kept a;
  grants = Kept-insert at g a.grants (λ f. record { session = refl; consumed = λ e. e }) h;
  access_tokens = tokens-Kept a;
}

pub Evolves-token :
    (a : Service) (at : String) (t : AccessToken)
    → ((u : AccessToken) → lookup at a.access_tokens ≡ some u → TokenLater u t)
    → Evolves a (record a { access_tokens = insert at t a.access_tokens })
Evolves-token a at t h = record {
  sessions = sessions-Kept a;
  grants = grants-Kept a;
  access_tokens =
      Kept-insert at t a.access_tokens (λ u. record { session = refl; consumed = λ e. e }) h;
}
