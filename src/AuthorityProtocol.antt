-- ===== src/AuthorityProtocol.antt =====
-- core/authority_protocol.py: the dynamic authority envelope and its ceiling. Its state is that of
-- core/authority_state.py, its multiplier a whole number of hundredths; the fields of provenance are left out.
use verigate.Base.{true, false, String, ℕ, Bool, if◌then◌else◌, ◌||◌, ltb, not}
use verigate.Base.Int.{pos, negsuc, ℤ, ◌*ℤ◌, ltb_ℤ}
use verigate.Money.{finite, not_finite, nan, not_number, Amount}
use verigate.Storage.{AuthorityState}

-- hundredths
abbrev scale : ℕ
scale = 100

pub record Authority : Type 0 where
  pub authority_id : String
  pub agent_id : String
  pub identity_id : String
  pub capability_id : String
  pub capability_version : ℕ
  pub capability_sha256 : String
  pub state : AuthorityState
  pub multiplier : ℕ
  pub ledger_head_hash : String

abbrev is_negative : ℤ → Bool
is_negative (pos _) = false
is_negative (negsuc _) = true

-- An amount that is no number, or not finite, is refused.
unfoldable pub authority_ceiling_allows : ℤ → ℕ → Amount → Bool
unfolding ◌*ℤ◌
authority_ceiling_allows limit factor not_number = false
authority_ceiling_allows limit factor not_finite = false
authority_ceiling_allows limit factor nan = false
authority_ceiling_allows limit factor (finite requested) =
    if is_negative limit || ltb scale factor || is_negative requested
    then false
    else not (ltb_ℤ (limit *ℤ factor) (requested *ℤ scale))
