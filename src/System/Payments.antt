-- ===== src/System/Payments.antt =====
-- contracts/eosio.system: what the inline transfers of the contract bring to an account.
use cmcc_eosio_contracts.Common.{ℕ, ◌≡◌, List, [], ◌∷◌, ◌++◌, ◌==◌, if◌then◌else◌}
use cmcc_eosio_contracts.Common.Int.{ℤ, pos, ◌+ℤ◌, ◌-ℤ◌, int_laws}
use cmcc_eosio_contracts.System.Tables.{
  Event, sent_transfer, sent_open, sent_rent_result, sent_order_result, deferred_bidrefund,
  canceled_deferred, sent_issue, sent_buy_result, sent_sell_result, deferred_refund,
  proposed_producers, set_parameters, set_privileged,
}

-- What an inline transfer brings to an account, or takes from it.
abbrev pub paid : ℕ → Event → ℤ
paid account (sent_transfer l from to quantity memo) =
    (if to == account then quantity.amount else pos 0)
    -ℤ (if from == account then quantity.amount else pos 0)
paid account (sent_open l owner s payer) = pos 0
paid account (sent_rent_result a) = pos 0
paid account (sent_order_result n a) = pos 0
paid account (deferred_bidrefund id payer bidder name) = pos 0
paid account (canceled_deferred id) = pos 0
paid account (sent_issue l to quantity memo) = pos 0
paid account (sent_buy_result a) = pos 0
paid account (sent_sell_result a) = pos 0
paid account (deferred_refund owner delay) = pos 0
paid account (proposed_producers ps) = pos 0
paid account (set_parameters p) = pos 0
paid account (set_privileged n b) = pos 0

unfoldable pub paid_in : ℕ → List Event → ℤ
paid_in account [] = pos 0
paid_in account (e ∷ es) = paid account e +ℤ paid_in account es

pub paid_in-append :
    (account : ℕ) (es : List Event) (e : Event)
    → paid_in account (es ++ e ∷ []) ≡ paid_in account es +ℤ paid account e
unfolding paid_in
paid_in-append account [] e = omega int_laws
paid_in-append account (x ∷ es) e = rw (paid_in-append account es e) (omega int_laws)
