-- ===== src/IssuerSigner/Approvals.antt =====
-- `requireDualApproval` of packages/issuer-signer/src/index.ts.
use universal_smart_wallet.Prelude.{
  ℕ, suc, String, Bool, true, false, not, ◌&&◌, List, [], ◌∷◌, map, Option, leb, length, all,
  includes, str_eq, ◌>>=◌, ◌>>◌, guard, or_throw, if◌then◌else◌,
}
use universal_smart_wallet.Value.{pos}
use universal_smart_wallet.Policy.Texts.{is_safe_integer, is_less}
use universal_smart_wallet.IssuerSigner.{
  Operation, sign, rotate, disable, ApprovalContext, ApprovalEvidence, ErrorCode,
}
use universal_smart_wallet.IssuerSigner.Texts.{Checked, is_id, is_digest}

abbrev pub same_operation : Operation → Operation → Bool
same_operation sign sign = true
same_operation rotate rotate = true
same_operation disable disable = true
same_operation _ _ = false

-- The approval is for this very request and operation.
unfoldable pub is_bound : ApprovalContext → ApprovalEvidence → Bool
is_bound c a =
    is_id a.approval_id
    && is_id a.approver_id
    && (str_eq a.request_id c.request_id && str_eq a.tenant_id c.tenant_id)
    && (same_operation a.operation c.operation && str_eq a.binding_digest c.binding_digest)
    && is_digest a.binding_digest

unfoldable pub is_current : ApprovalContext → ApprovalEvidence → Bool
is_current c a =
    is_safe_integer a.approved_at
    && is_safe_integer a.expires_at
    && (not (is_less (pos c.at) a.approved_at) && is_less (pos c.at) a.expires_at)
    && is_less a.approved_at a.expires_at

-- `new Set(items).size`
unfoldable pub set_size : List String → ℕ
set_size [] = 0
set_size (s ∷ ss) = let rest = set_size ss in if includes s ss then rest else suc rest

unfoldable pub require_dual_approval :
    ApprovalContext → Option (List ApprovalEvidence) → Checked (Unit {0})
require_dual_approval c asked = do
  evidence ← or_throw ErrorCode.approval_unavailable asked
  guard (leb 2 (length evidence)) ErrorCode.dual_approval_required
  guard (all (λ a. is_bound c a && is_current c a) evidence) ErrorCode.approval_invalid
  guard
      (leb 2 (set_size (map (λ a. a.approval_id) evidence))
        && leb 2 (set_size (map (λ a. a.approver_id) evidence)))
      ErrorCode.dual_approval_required
