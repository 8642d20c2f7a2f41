-- ===== src/Tests/Node.antt =====
-- The wallet, the node's operations and the configuration over the sample node.
use ln_node.Prelude.{
  Option, ◌≡◌, refl, ℕ, ◌+◌, ◌*◌, ◌≤◌, true, false, String, none, some, [], ◌∷◌, ok, returned,
  nat_eq, list_eq, arith,
}
use Prim.Native.String as Text
use ln_node.Kv.{Bytes}
use ln_node.Kv.Memory.{memory_store as memory, memory_store-IsLawful as lawful}
use ln_node.Storage.{Payment}
use ln_node.Storage.Store.{add_payment}
use ln_node.Fees.{maximum_fee_estimate}
use ln_node.Fees.Cache.{fallback_fees, get_est_sat_per_1000_weight}
use ln_node.Wallet.{build_transaction}
use ln_node.Wallet.Spending.{build_transaction-final}
use ln_node.World.{World}
use ln_node.Node.Channels.{balance, balance-lightning_bounds, sum_u64}
use ln_node.Node.Payments.{sent_payment, pay_bolt11_invoice, get_payment}
use ln_node.Node.Race.{handled, sent_event, payment_sent_races}
use ln_node.Events.Payments.{settled}
use ln_node.Config.{Config, UserConfig, signet, default}
use ln_node.Tests.Formats.{plain_formats as plain, plain_formats-IsFaithful as faithful}
use ln_node.Tests.Samples.{manager, wallet, world, funds, SampleInvoice}

built :
    build_transaction wallet 3000 [] fallback_fees false (funds 5000)
    ≡ returned (ok (3000 ∷ 10000 ∷ []), funds 5000)
unfolding build_transaction get_est_sat_per_1000_weight fallback_fees
built = refl

build_transaction-final_example :
    (fee_rate : ℕ) × (psbt : Bytes) × (signed : Bytes) × (3000
      ≤ (wallet.balance (funds 5000)).confirmed)
    × (get_est_sat_per_1000_weight fallback_fees maximum_fee_estimate ≡ some fee_rate)
    × (wallet.build [] 3000 fee_rate (funds 5000) ≡ (ok psbt, funds 5000))
    × (wallet.sign psbt false (funds 5000) ≡ ok (signed, true))
    × (wallet.extract_tx signed ≡ ok (3000 ∷ 10000 ∷ []))
build_transaction-final_example =
    build_transaction-final wallet 3000 [] fallback_fees false (funds 5000) (funds 5000)
      (3000 ∷ 10000 ∷ []) built

abbrev invoice : SampleInvoice
invoice = record { hash = 4 ∷ 2 ∷ []; amount = some 21000 }

abbrev alone : World memory manager wallet → World memory manager wallet
alone w = w

writes : (p : Payment) (s : memory.State) → (add_payment memory plain p s).0 ≡ ok tt
unfolding add_payment
writes p s = refl

abbrev bump : Bytes → wallet.State → Option wallet.State
bump event s = some s

payment_sent_races_example :
    (get_payment memory plain manager wallet (4 ∷ 2 ∷ []) (
        handled memory plain manager wallet true bump 100000 lawful faithful
          (sent_event (4 ∷ 2 ∷ []) (9 ∷ []) 7)
          (pay_bolt11_invoice memory plain manager wallet invoice none alone (world 0)).1)
      ≡ some (settled (sent_payment (4 ∷ 2 ∷ []) 21000) (9 ∷ []) (some 7)))
    × (get_payment memory plain manager wallet
          (4 ∷ 2 ∷ [])
          (pay_bolt11_invoice memory plain manager wallet invoice none
            (handled memory plain manager wallet true bump 100000 lawful faithful
              (sent_event (4 ∷ 2 ∷ []) (9 ∷ []) 7))
            (world 0)).1
        ≡ some (sent_payment (4 ∷ 2 ∷ []) 21000))
payment_sent_races_example =
    payment_sent_races memory plain manager wallet true bump 100000 lawful faithful invoice none
      (world 0) 21000 7 (9 ∷ []) refl refl writes

-- Two channels with 2500 and 3999 millisatoshis show 2 and 3 satoshis.
abbrev shown : ℕ
shown = (balance memory manager wallet (world 0)).lightning

shown_five : shown ≡ 5
unfolding balance sum_u64
shown_five = refl

balance-lightning_bounds_example : (shown * 1000 ≤ 6499) × (6499 ≤ shown * 1000 + 999 * 2)
balance-lightning_bounds_example =
    balance-lightning_bounds memory manager wallet (world 0) (omega arith)

abbrev pub ldk_default : UserConfig
ldk_default = record {
  min_funding_satoshis = 1000;
  announce_for_forwarding = false;
  negotiate_anchors_zero_fee_htlc_tx = false;
  manually_accept_inbound_channels = false;
  our_max_accepted_htlcs = 50;
  accept_forwards_to_priv_channels = false;
}

abbrev pub join : String → String → String
join a b = Text.◌++◌ a b

abbrev config_a : Config
unfolding default
config_a = default join "/home/a/"

abbrev config_b : Config
config_b = record config_a { network = signet; node_path = "/srv"; min_channel_value_sat = 5 }
