-- ===== src/System/Pay/Voters.antt =====
-- contracts/eosio.system/src/producer_pay.cpp: blocks and pay keep the rows of the voters in order.
use cmcc_eosio_contracts.Common.{ℕ, ◌≡◌, Bool, subst, String, inl, inr, arith}
use cmcc_eosio_contracts.Common.Int.{ℤ}
use cmcc_eosio_contracts.Chain.Asset.{Symbol}
use cmcc_eosio_contracts.Chain.Action.{Result-cases}
use cmcc_eosio_contracts.Chain.Keeps.{Keeps}
use cmcc_eosio_contracts.Token.{get_supply}
use cmcc_eosio_contracts.System.State.{ProducerInfo}
use cmcc_eosio_contracts.System.Host.{SystemHost, pool, core_symbol}
use cmcc_eosio_contracts.System.Keeping.{step_laws}
use cmcc_eosio_contracts.System.Voting.Order.{VotersOk, voters_steps}
use cmcc_eosio_contracts.System.Voting.Steps.{total-Keeps, shares-Keeps}
use cmcc_eosio_contracts.System.Rex.Pool.{channel_namebid_to_rex}
use cmcc_eosio_contracts.System.Voting.Election.{update_elected_producers}
use cmcc_eosio_contracts.System.Pay.Blocks.{
  count_block, start_presses, each_minute, close_auction, onblock,
}
use cmcc_eosio_contracts.System.Pay.Claims.{
  token_supply, issue_tokens, fill_buckets, shares_row, vote_pay, send_pay, take_pay, pay_producer,
  claimrewards,
}
use cmcc_eosio_contracts.System.Float.{Double}

module _ (h : SystemHost) where
  elected-Keeps : (t : ℕ) → Keeps (VotersOk h) (update_elected_producers h t)
  unfolding update_elected_producers VotersOk
  elected-Keeps t = search step_laws depth 40 fits 4000

  channel-Keeps : (z : ℤ) → Keeps (VotersOk h) (channel_namebid_to_rex h z)
  unfolding channel_namebid_to_rex pool VotersOk
  channel-Keeps z = search step_laws depth 40 fits 4000

  auction-Keeps : (t : ℕ) → Keeps (VotersOk h) (close_auction h t)
  unfolding close_auction VotersOk
  auction-Keeps t = search (step_laws, channel-Keeps) depth 40 fits 4000

  count-Keeps : (n : ℕ) → Keeps (VotersOk h) (count_block h n)
  unfolding count_block VotersOk
  count-Keeps n = search step_laws depth 40 fits 4000

  presses-Keeps : Keeps (VotersOk h) (start_presses h)
  unfolding start_presses VotersOk
  presses-Keeps = search step_laws depth 40 fits 4000

  minute-Keeps : (t : ℕ) → Keeps (VotersOk h) (each_minute h t)
  unfolding each_minute
  minute-Keeps t = search (step_laws, elected-Keeps, auction-Keeps) depth 40 fits 4000

  pub onblock-Keeps : (t n : ℕ) → Keeps (VotersOk h) (onblock h t n)
  unfolding onblock VotersOk
  onblock-Keeps t n =
      search (step_laws, presses-Keeps, count-Keeps, minute-Keeps) depth 40 fits 4000

  send_pay-Keeps : (n m : ℕ) (z : ℤ) (memo : String) → Keeps (VotersOk h) (send_pay h n m z memo)
  unfolding send_pay core_symbol VotersOk
  send_pay-Keeps n m z memo = search step_laws depth 40 fits 4000

  shares_row-Keeps : (n : ℕ) (p : ProducerInfo) → Keeps (VotersOk h) (shares_row h n p)
  unfolding shares_row VotersOk
  shares_row-Keeps n p = search step_laws depth 40 fits 4000

  vote_pay-Keeps : (p : ProducerInfo) (d : Double) → Keeps (VotersOk h) (vote_pay h p d)
  unfolding vote_pay
  vote_pay-Keeps p d = search (step_laws, total-Keeps h (voters_steps h)) depth 40 fits 4000

  take_pay-Keeps :
      (n : ℕ) (p : ProducerInfo) (d : Double) (b : Bool) (z : ℤ)
      → Keeps (VotersOk h) (take_pay h n p d b z)
  unfolding take_pay VotersOk
  take_pay-Keeps n p d b z =
      search (step_laws, total-Keeps h (voters_steps h), send_pay-Keeps) depth 40 fits 4000

  pay_producer-Keeps : (n : ℕ) (p : ProducerInfo) → Keeps (VotersOk h) (pay_producer h n p)
  unfolding pay_producer
  pay_producer-Keeps n p =
      search
        (
          step_laws,
          shares_row-Keeps,
          shares-Keeps h (voters_steps h),
          vote_pay-Keeps,
          take_pay-Keeps,
        )
        depth 40 fits 4000

  issue-Keeps : (z : ℤ) → Keeps (VotersOk h) (issue_tokens h z)
  unfolding issue_tokens core_symbol VotersOk
  issue-Keeps z = search step_laws depth 60 fits 8000

  fill-Keeps : (z : ℤ) → Keeps (VotersOk h) (fill_buckets h z)
  unfolding fill_buckets VotersOk
  fill-Keeps z = search (step_laws, issue-Keeps) depth 40 fits 4000

  supply-Keeps : (core : Symbol) → Keeps (VotersOk h) (token_supply h core)
  unfolding token_supply
  supply-Keeps core = record {
    kept = λ s s' a c e. elim (Result-cases (get_supply h.chain core.code h.token)) [
      | inl (b, t, x) ↦ let w : s ≡ s' = ground arith in subst (VotersOk h) w c
      | inr (m, x) ↦ ground arith
    ];
  }

  pub claimrewards-Keeps : (n : ℕ) → Keeps (VotersOk h) (claimrewards h n)
  unfolding claimrewards core_symbol VotersOk
  claimrewards-Keeps n =
      search (step_laws, supply-Keeps, fill-Keeps, pay_producer-Keeps) depth 40 fits 8000
