-- ===== src/System/Voting/Election.antt =====
-- contracts/eosio.system/src/voting.cpp: the producers that are elected, the 21 with the most votes.
use cmcc_eosio_contracts.Common.{
  ℕ, zero, suc, ◌%◌, ◌^◌, Bool, ◌&&◌, ◌||◌, not, List, [], ◌∷◌, ltb, length, if◌then◌else◌,
}
use cmcc_eosio_contracts.Common.Int.{pos, leb_ℤ}
use cmcc_eosio_contracts.Chain.Table.{Entry, Table}
use cmcc_eosio_contracts.Chain.Action.{Action, ⊤, gets, when, ◌>>=◌, ◌>>◌}
use cmcc_eosio_contracts.System.Float.{Double, zero_double}
use cmcc_eosio_contracts.System.State.{ProducerInfo, ProducerKey}
use cmcc_eosio_contracts.System.Tables.{System, Event, emit}
use cmcc_eosio_contracts.System.Host.{SystemHost}
use cmcc_eosio_contracts.System.Ram.{set_gstate}

-- In order of the names, no two of which are equal.
unfoldable pub insert_by_name : ProducerKey → List ProducerKey → List ProducerKey
insert_by_name p [] = p ∷ []
insert_by_name p (q ∷ qs) =
    if ltb q.producer_name p.producer_name then q ∷ insert_by_name p qs else p ∷ q ∷ qs

unfoldable pub sort_by_name : List ProducerKey → List ProducerKey
sort_by_name [] = []
sort_by_name (p ∷ ps) = insert_by_name p (sort_by_name ps)

abbrev pub key_of_producer : ProducerInfo → ProducerKey
key_of_producer p = record { producer_name = p.owner; block_signing_key = p.producer_key }

module _ (h : SystemHost) where
  unfoldable pub by_votes : ProducerInfo → Double
  by_votes p = if p.is_active then h.floats.neg p.total_votes else p.total_votes

  -- The index by votes: then by primary key.
  abbrev pub ranks_before : Entry ProducerInfo → Entry ProducerInfo → Bool
  ranks_before a b =
      h.floats.lt (by_votes a.row) (by_votes b.row)
      || not (h.floats.lt (by_votes b.row) (by_votes a.row)) && ltb a.key b.key

  unfoldable pub insert_ranked :
      Entry ProducerInfo → List (Entry ProducerInfo) → List (Entry ProducerInfo)
  insert_ranked e [] = e ∷ []
  insert_ranked e (x ∷ xs) = if ranks_before e x then e ∷ x ∷ xs else x ∷ insert_ranked e xs

  unfoldable pub ranked : Table ProducerInfo → List (Entry ProducerInfo)
  ranked [] = []
  ranked (e ∷ t) = insert_ranked e (ranked t)

  abbrev pub electable : ProducerInfo → Bool
  electable p = h.floats.lt zero_double p.total_votes && p.is_active

  unfoldable pub top : ℕ → List (Entry ProducerInfo) → List ProducerKey
  top zero es = []
  top (suc n) [] = []
  top (suc n) (e ∷ es) =
      let rest = top n es in if electable e.row then key_of_producer e.row ∷ rest else []

  unfoldable pub top_producers : Table ProducerInfo → List ProducerKey
  top_producers t = top 21 (ranked t)

  -- A schedule is proposed if it is not smaller than the last; its size is a uint16_t.
  unfoldable pub update_elected_producers : ℕ → Action System ⊤
  update_elected_producers block_time = do
    g ← gets (λ s. s.gstate)
    set_gstate (record g { last_producer_schedule_update = block_time })
    elected ← gets (λ s. top_producers s.producers)
    let size = length elected
    let schedule = sort_by_name elected
    when (not (ltb size g.last_producer_schedule_size)) (do
      emit (Event.proposed_producers schedule)
      when (leb_ℤ (pos 0) (h.set_proposed_producers schedule)) (
          set_gstate (record g {
            last_producer_schedule_update = block_time;
            last_producer_schedule_size = size % 2 ^ 16;
          })))
