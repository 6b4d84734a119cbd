-- ===== src/System/Voting/Proxies.antt =====
-- contracts/eosio.system/src/voting.cpp: a change of a voter's weight goes on to its proxy, and from
-- the last voter of such a chain to the producers. A call deeper than the chain allows traps.
use cmcc_eosio_contracts.Common.{
  ℕ, zero, suc, Bool, true, false, not, ◌&&◌, ◌||◌, List, [], ◌∷◌, String, ◌==◌, if◌then◌else◌,
}
use cmcc_eosio_contracts.Chain.Action.{
  Action, ⊤, pure, on_row, abort, gets, or_abort, check, when, require_auth, ◌>>=◌, ◌>>◌,
}
use cmcc_eosio_contracts.System.Float.{Double, one_double}
use cmcc_eosio_contracts.System.State.{VoterInfo}
use cmcc_eosio_contracts.System.Tables.{
  System, find_in, emplace_in, modify_in, voters_table, producers_table,
}
use cmcc_eosio_contracts.System.Host.{SystemHost, at_end}
use cmcc_eosio_contracts.System.Resources.{new_voter}
use cmcc_eosio_contracts.System.Ram.{set_gstate}
use cmcc_eosio_contracts.System.Voting.Shares.{Accrual, no_accrual, stake2vote, accrue, settle}

abbrev pub proxy_conflict : String
proxy_conflict = "account registered as a proxy is not allowed to use a proxy"

abbrev pub too_deep : String
too_deep = "call depth exceeded"

module _ (h : SystemHost) where
  abbrev pub read_voter : ℕ → Action System VoterInfo
  read_voter n = do v ← find_in voters_table h.self n; or_abort v at_end

  abbrev pub write_voter : ℕ → VoterInfo → Action System ⊤
  write_voter n = modify_in voters_table h.self n 0

  unfoldable pub weight_of : VoterInfo → Double
  weight_of v =
      let own = stake2vote h v.staked in
      if v.is_proxy then h.floats.add own v.proxied_vote_weight else own

  unfoldable pub change_proxied : ℕ → (Double → Double) → Action System ⊤
  change_proxied n f = do
    v ← read_voter n
    write_voter n (record v { proxied_vote_weight = f v.proxied_vote_weight })

  unfoldable pub add_vote_weight : Double → Action System ⊤
  add_vote_weight delta = do
    g ← gets (λ s. s.gstate)
    set_gstate
        (record g { total_producer_vote_weight = h.floats.add g.total_producer_vote_weight delta })

  unfoldable pub change_total_votes : ℕ → (Double → Double) → Action System ⊤
  change_total_votes n f = do
    itr ← find_in producers_table h.self n
    prod ← or_abort itr at_end
    modify_in producers_table h.self n 0 (record prod { total_votes = f prod.total_votes })

  unfoldable pub change_votes : List ℕ → Double → Accrual → Action System Accrual
  change_votes [] delta acc = pure acc
  change_votes (acnt ∷ rest) delta acc = do
    itr ← find_in producers_table h.self acnt
    prod ← or_abort itr "producer not found"
    change_total_votes acnt (λ v. h.floats.add v delta)
    add_vote_weight delta
    more ← accrue h acnt prod delta acc
    change_votes rest delta more

  unfoldable pub change_producers : List ℕ → Double → Action System ⊤
  change_producers producers delta = do
    acc ← change_votes producers delta no_accrual
    share ← settle h acc
    pure tt

  -- The proxy's row gets the change before the proxy itself is looked at.
  abbrev pub give_to_proxy : ℕ → Double → Action System ⊤
  give_to_proxy proxy delta = do
    itr ← find_in voters_table h.self proxy
    p ← or_abort itr "proxy not found"
    change_proxied proxy (λ w. h.floats.add w delta)

  unfoldable pub write_weight : ℕ → Double → Action System ⊤
  write_weight n weight = do
    v ← read_voter n
    write_voter n (record v { last_vote_weight = weight })

  -- Small changes are not passed on.
  unfoldable pub is_change : Double → Bool
  is_change delta = h.floats.lt one_double (h.floats.abs delta)

  unfoldable pub propagate_weight_change : ℕ → ℕ → Action System ⊤
  propagate_weight_change zero n = abort too_deep
  propagate_weight_change (suc depth) n = do
    v ← read_voter n
    check (v.proxy == 0 || not v.is_proxy) proxy_conflict
    let delta = h.floats.sub (weight_of v) v.last_vote_weight
    when (is_change delta && not (v.proxy == 0))
        (do give_to_proxy v.proxy delta; propagate_weight_change depth v.proxy)
    when (is_change delta && v.proxy == 0) (change_producers v.producers delta)
    write_weight n (weight_of v)

  unfoldable pub regproxy : ℕ → Bool → Action System ⊤
  regproxy proxy isproxy = do
    require_auth h.chain proxy
    pitr ← find_in voters_table h.self proxy
    on_row pitr
        (λ v. (do
          check (not (same isproxy v.is_proxy)) "action has no effect"
          check (not isproxy || v.proxy == 0)
              "account that uses a proxy is not allowed to become a proxy"
          write_voter proxy (record v { is_proxy = isproxy })
          propagate_weight_change h.call_depth proxy))
        (emplace_in voters_table h.self proxy proxy
          (record (new_voter proxy) { is_proxy = isproxy }))
    where
      same : Bool → Bool → Bool
      same true b = b
      same false b = not b
