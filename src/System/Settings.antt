-- ===== src/System/Settings.antt =====
-- contracts/eosio.system/src/eosio.system.cpp: what is set for the chain.
use cmcc_eosio_contracts.Common.{ℕ, leb}
use cmcc_eosio_contracts.Chain.Action.{Action, ⊤, check, update, require_auth, ◌>>◌}
use cmcc_eosio_contracts.System.State.{BlockchainParameters}
use cmcc_eosio_contracts.System.Tables.{System, Event, emit}
use cmcc_eosio_contracts.System.Host.{SystemHost}

module _ (h : SystemHost) where
  unfoldable pub setparams : BlockchainParameters → Action System ⊤
  setparams params = do
    require_auth h.chain h.self
    update (λ s. record s { parameters = params })
    check (leb 3 params.max_authority_depth) "max_authority_depth should be at least 3"
    emit (Event.set_parameters params)

  unfoldable pub setpriv : ℕ → ℕ → Action System ⊤
  setpriv account ispriv = do
    require_auth h.chain h.self
    emit (Event.set_privileged account ispriv)
