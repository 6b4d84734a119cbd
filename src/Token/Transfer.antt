-- ===== src/Token/Transfer.antt =====
-- contracts/eosio.token/src/eosio.token.cpp: what a transfer moves, and that it goes through.
use cmcc_eosio_contracts.Common.{
  ℕ, ◌≡◌, refl, sym, ◌∙◌, ap, Bool, true, false, ◌&&◌, none, some, String, ◌==◌, arith,
  if◌then◌else◌, inl, inr, Option-cases, [], ◌∷◌, ◌++◌,
}
use cmcc_eosio_contracts.Common.Int.{ℤ, pos, ◌-ℤ◌, ◌+ℤ◌, ◌≤ℤ◌, int_laws}
use cmcc_eosio_contracts.Chain.Table.{
  Table, find, set_row, add_row, find-add_row, find-set_row, payer_of, payer_of-add_row,
  payer_of-set_row,
}
use cmcc_eosio_contracts.Chain.Asset.{Asset, in_range}
use cmcc_eosio_contracts.Chain.Action.{Chain, ok}
use cmcc_eosio_contracts.Token.{Account, CurrencyStats, Token}
use cmcc_eosio_contracts.Token
use cmcc_eosio_contracts.Token.Effects.{
  account_of, Debited, Credited, opened, grown, transfer_effect,
}

-- What an owner holds of a currency; with no row that is nothing.
abbrev pub balance_of : ℕ → ℕ → Table Account → ℤ
balance_of o k a = elim (find o k a) [ none ↦ pos 0 | some row ↦ row.balance.amount ]

abbrev pub at_row : ℕ → ℕ → ℕ → ℕ → Bool
at_row o k owner code = (owner == o) && (code == k)

pub Debited-balance :
    (owner : ℕ) (value : Asset) (a b : Table Account)
    → Debited owner value a b
    → (o k : ℕ)
    → balance_of o k b ≡ (
        if at_row o k owner value.symbol.code
        then balance_of o k a -ℤ value.amount
        else balance_of o k a)
Debited-balance owner value a b d o k = rw d.written (
    ground (
      arith,
      d.found,
      find-set_row owner value.symbol.code owner o k
          (account_of (d.row.balance.amount -ℤ value.amount) value.symbol) d.row a d.found,
    ))

pub Credited-balance :
    (owner : ℕ) (value : Asset) (payer : ℕ) (a b : Table Account)
    → Credited owner value payer a b
    → (o k : ℕ)
    → balance_of o k b ≡ (
        if at_row o k owner value.symbol.code
        then balance_of o k a +ℤ value.amount
        else balance_of o k a)
Credited-balance owner value payer a b (opened e w) o k = rw w (
    grind
      (int_laws, find-add_row owner value.symbol.code payer o k (record { balance = value }) a e))
Credited-balance owner value payer a b (grown row e same range w) o k = rw w (
    ground (
      arith,
      find-set_row owner value.symbol.code 0 o k
          (account_of (row.balance.amount +ℤ value.amount) value.symbol) row a e,
    ))

Debited-frame :
    (owner : ℕ) (value : Asset) (a b : Table Account)
    → Debited owner value a b
    → (o k : ℕ) → at_row o k owner value.symbol.code ≡ false
    → (find o k b ≡ find o k a) × (payer_of o k b ≡ payer_of o k a)
Debited-frame owner value a b d o k p =
    let code = value.symbol.code in
    let w = account_of (d.row.balance.amount -ℤ value.amount) value.symbol in
    (
      rw (d.written, find-set_row owner code owner o k w d.row a d.found, p) refl,
      rw (d.written, payer_of-set_row owner code owner o k w d.row a d.found, p) refl,
    )

Credited-frame :
    (owner : ℕ) (value : Asset) (payer : ℕ) (a b : Table Account)
    → Credited owner value payer a b
    → (o k : ℕ) → at_row o k owner value.symbol.code ≡ false
    → (find o k b ≡ find o k a) × (payer_of o k b ≡ payer_of o k a)
Credited-frame owner value payer a b (opened e w) o k p =
    let code = value.symbol.code in
    let row : Account = record { balance = value } in
    (
      rw (w, find-add_row owner code payer o k row a e, p) refl,
      rw (w, payer_of-add_row owner code payer o k row a e, p) refl,
    )
Credited-frame owner value payer a b (grown row e same range w) o k p =
    let code = value.symbol.code in
    let v = account_of (row.balance.amount +ℤ value.amount) value.symbol in
    (
      rw (w, find-set_row owner code 0 o k v row a e, p) refl,
      rw (w, payer_of-set_row owner code 0 o k v row a e, p) refl,
    )

-- The sender's row is its old one less the quantity, paid by the sender, where the account 0 stands for
-- the payer of before.
pub record Sender (owner : ℕ) (value : Asset) (a b : Table Account) : Type 0 where
  pub row : Account
  pub had : find owner value.symbol.code a ≡ some row
  pub has :
      find owner value.symbol.code b
      ≡ some (account_of (row.balance.amount -ℤ value.amount) row.balance.symbol)
  pub pays :
      payer_of owner value.symbol.code b
      ≡ (if owner == 0 then payer_of owner value.symbol.code a else some owner)

-- The receiver's row is a new one, or its old one and the quantity.
pub data Receiver (owner payer : ℕ) (value : Asset) (a b : Table Account) : Type 0 where
  new_row :
      find owner value.symbol.code a ≡ none
      → find owner value.symbol.code b ≡ some (record { balance = value })
      → payer_of owner value.symbol.code b ≡ some payer
      → Receiver owner payer value a b
  old_row :
      (row : Account)
      → find owner value.symbol.code a ≡ some row
      → find owner value.symbol.code b
        ≡ some (account_of (row.balance.amount +ℤ value.amount) row.balance.symbol)
      → payer_of owner value.symbol.code b ≡ payer_of owner value.symbol.code a
      → Receiver owner payer value a b

Debited-Sender :
    (owner : ℕ) (value : Asset) (a b after : Table Account)
    → Debited owner value a b
    → (find owner value.symbol.code after ≡ find owner value.symbol.code b)
      × (payer_of owner value.symbol.code after ≡ payer_of owner value.symbol.code b)
    → Sender owner value a after
Debited-Sender owner value a b after d (f, g) =
    let code = value.symbol.code in
    let w = account_of (d.row.balance.amount -ℤ value.amount) value.symbol in
    record {
      row = d.row;
      had = d.found;
      has = ground (
        arith,
        d.written,
        d.same_symbol,
        find-set_row owner code owner owner code w d.row a d.found,
      );
      pays =
          ground (arith, d.written, payer_of-set_row owner code owner owner code w d.row a d.found);
    }

Credited-Receiver :
    (owner payer : ℕ) (value : Asset) (a between b : Table Account)
    → (find owner value.symbol.code between ≡ find owner value.symbol.code a)
      × (payer_of owner value.symbol.code between ≡ payer_of owner value.symbol.code a)
    → Credited owner value payer between b
    → Receiver owner payer value a b
Credited-Receiver owner payer value a between b (f, g) (opened e w) =
    let code = value.symbol.code in
    let row : Account = record { balance = value } in
    new_row (sym f ∙ e) (ground (arith, find-add_row owner code payer owner code row between e))
      (ground (arith, payer_of-add_row owner code payer owner code row between e))
Credited-Receiver owner payer value a between b (f, g) (grown row e same range w) =
    let code = value.symbol.code in
    let v = account_of (row.balance.amount +ℤ value.amount) value.symbol in
    old_row row (sym f ∙ e) (ground (arith, find-set_row owner code 0 owner code v row between e))
      (ground (arith, payer_of-set_row owner code 0 owner code v row between e))

module _ (c : Chain) where
  -- A transfer that succeeds moves the quantity from one balance to the other, and changes nothing else
  -- but who pays for the two rows: the sender has a row, which keeps its symbol and is paid by the
  -- sender, or by its payer of before if the sender is the account 0; the receiver's row keeps its
  -- symbol and payer, or it is a new one, of the quantity, paid by the receiver if it signed and by the
  -- sender if not; every other row keeps its balance and payer, and there is no other new one. The
  -- statistics stay, no inline action is sent, and the two are notified.
  pub transfer_moves :
      (from to : ℕ) (quantity : Asset) (memo : String) (t t' : Token)
      → Token.transfer c from to quantity memo t ≡ ok tt t'
      → let k = quantity.symbol.code in
        (balance_of from k t'.accounts ≡ balance_of from k t.accounts -ℤ quantity.amount)
        × (balance_of to k t'.accounts ≡ balance_of to k t.accounts +ℤ quantity.amount)
        × ((o j : ℕ)
            → at_row o j from k ≡ false
            → at_row o j to k ≡ false
            → (find o j t'.accounts ≡ find o j t.accounts)
              × (payer_of o j t'.accounts ≡ payer_of o j t.accounts))
        × (t'.stats ≡ t.stats)
        × (t'.notified ≡ (t.notified ++ from ∷ []) ++ to ∷ [])
        × (t'.sent ≡ t.sent)
        × Sender from quantity t.accounts t'.accounts
        × Receiver to (if c.has_auth to then to else from) quantity t.accounts t'.accounts
  transfer_moves from to quantity memo t t' h =
      let x = transfer_effect c from to quantity memo t t' h in
      let k : ℕ = quantity.symbol.code in
      let payer : ℕ = if c.has_auth to then to else from in
      let d = Debited-balance from quantity t.accounts x.between x.debit in
      let r = Credited-balance to quantity payer x.between t'.accounts x.credit in
      let f = Debited-frame from quantity t.accounts x.between x.debit in
      let g = Credited-frame to quantity payer x.between t'.accounts x.credit in
      let apart : at_row from k to k ≡ false = ground (arith, x.distinct) in
      let apart' : at_row to k from k ≡ false = ground (arith, x.distinct) in
      (
        ground (arith, d from k, r from k, x.distinct),
        ground (arith, d to k, r to k, x.distinct),
        λ o j p q. ((g o j q).0 ∙ (f o j p).0, (g o j q).1 ∙ (f o j p).1),
        ap (λ (u : Token). u.stats) x.rest,
        ap (λ (u : Token). u.notified) x.rest,
        ap (λ (u : Token). u.sent) x.rest,
        Debited-Sender from quantity t.accounts x.between t'.accounts x.debit (g from k apart),
        Credited-Receiver to payer quantity t.accounts x.between t'.accounts (f to k apart')
            x.credit,
      )

  pub debit_total :
      (owner : ℕ) (value : Asset) (t : Token) (row : Account)
      → find owner value.symbol.code t.accounts ≡ some row
      → row.balance.symbol ≡ value.symbol
      → value.amount ≤ℤ row.balance.amount
      → in_range (row.balance.amount -ℤ value.amount) ≡ true
      → Token.sub_balance c owner value t
        ≡ ok tt (record t {
          accounts =
              set_row owner value.symbol.code owner
                (account_of (row.balance.amount -ℤ value.amount) value.symbol)
                t.accounts;
        })
  unfolding Token.sub_balance
  debit_total owner value t row e same covered range =
      ground (arith, c.asset_sub_lem row.balance value)

  pub credit_total :
      (owner : ℕ) (value : Asset) (payer : ℕ) (t : Token)
      → ((row : Account)
          → find owner value.symbol.code t.accounts ≡ some row
          → (row.balance.symbol ≡ value.symbol)
            × (in_range (row.balance.amount +ℤ value.amount) ≡ true))
      → (t' : Token) × (Token.add_balance c owner value payer t ≡ ok tt t')
  unfolding Token.add_balance
  credit_total owner value payer t fits =
      elim (Option-cases (find owner value.symbol.code t.accounts)) [
        | inl e ↦ (
          record t {
            accounts =
                add_row owner value.symbol.code payer (record { balance = value }) t.accounts;
          },
          ground arith,
        )
        | inr (row, e) ↦ (
          record t {
            accounts =
                set_row owner value.symbol.code 0
                  (account_of (row.balance.amount +ℤ value.amount) value.symbol) t.accounts;
          },
          ground (arith, fits row e, c.asset_add_lem row.balance value),
        )
      ]
