-- ===== src/Tests/Startup.antt =====
-- Keys, a directory in memory and a signer that are as durable and as determined by the seed as is
-- relied on, and a wallet that is started on them twice.
use ln_node.Prelude.{
  ◌≡◌, refl, ℕ, zero, suc, Bool, true, false, String, Option, none, some, [], ◌∷◌, Result, ok, err,
  ◌==◌, string_eq, nat_eq, eq_iff, nat_beq_iff, ◌&&◌, if◌then◌else◌, arith,
}
use ln_node.Kv.{Bytes}
use ln_node.Config.{Network, bitcoin, testnet, testnet4, signet, regtest}
use ln_node.Wallet.{OnchainBalance}
use ln_node.Wallet.Startup.{
  Keys, Directory, WalletManager, IsDurable, mnemonic_from_file, mnemonic_of, load_or_create,
  ldk_seed, manager_of, new_wallet,
}
use ln_node.Wallet.Startup.Restart.{new_wallet-restart}
use ln_node.Wallet.Signing.{
  Recipient, Signer, IsSeeded, get_node_id, sign_message, derive_channel_signer,
}
use ln_node.Wallet.Signing.Identity.{identity-restart}
use ln_node.Tests.Samples.{wallet, funds}

abbrev words : Bytes → String
words [] = "old"
words (_ ∷ _) = "new"

-- Words are their own seed, key and descriptor.
abbrev pub keys : Keys
keys = record {
  Mnemonic = String;
  Seed = String;
  Xpriv = String;
  Descriptor = String;
  KeysManager = Bytes × ℕ × ℕ;
  from_entropy = λ e. ok (words e);
  parse = λ s. ok s;
  to_string = λ m. m;
  to_seed_normalized = λ pass m. m;
  new_master = λ kind seed. ok seed;
  derive_hardened = λ n x. ok x;
  secret_bytes = λ x. if x == "old" then 1 ∷ [] else 2 ∷ [];
  bip84 = λ x kind. x;
  keys_manager = λ seed secs nanos b. (seed, secs, nanos);
}

abbrev pub Saved : Type 0
Saved = String × String × Network × OnchainBalance

pub record Disk : Type 0 where
  pub seed : Option String
  pub database : Option Saved

abbrev network_number : Network → ℕ
network_number bitcoin = 0
network_number testnet = 1
network_number testnet4 = 2
network_number signet = 3
network_number regtest = 4

abbrev number_network : ℕ → Network
number_network zero = bitcoin
number_network (suc zero) = testnet
number_network (suc (suc zero)) = testnet4
number_network (suc (suc (suc zero))) = signet
number_network (suc (suc (suc (suc _)))) = regtest

network_round : (n : Network) → number_network (network_number n) ≡ n
network_round bitcoin = refl
network_round testnet = refl
network_round testnet4 = refl
network_round signet = refl
network_round regtest = refl

abbrev read_text : Option String → Result String String
read_text none = err "no such file"
read_text (some s) = ok s

abbrev is_there : Option String → Bool
is_there none = false
is_there (some _) = true

-- What a load with these descriptors and this network finds.
abbrev find : String → String → Network → Option Saved → Result String (Option OnchainBalance)
find e c n none = ok none
find e c n (some (e', c', n', w)) =
    if (e == e' && c == c') && network_number n == network_number n'
    then ok (some w)
    else err "mismatch"

abbrev pub directory : Directory wallet keys
directory = record {
  State = Disk;
  seed_exists = λ d. is_there d.seed;
  read_seed = λ d. read_text d.seed;
  write_seed = λ s d. (ok tt, record d { seed = some s });
  open_database = λ d. (ok tt, d);
  load_wallet = λ e c n d. (find e c n d.database, d);
  create_wallet = λ e c n d. (ok (funds 0), record d { database = some (e, c, n, funds 0) });
}

found-stored :
    (e c : String) (n : Network) (o : Option Saved) (w : OnchainBalance)
    → find e c n o ≡ ok (some w)
    → o ≡ some (e, c, n, w)
found-stored e c n none w h = absurd (cc h)
found-stored e c n (some (e', c', n', w')) w h = ground (
  arith,
  h,
  eq_iff e e',
  eq_iff c c',
  nat_beq_iff (network_number n) (network_number n'),
  network_round n,
  network_round n',
)

stored-found :
    (e c : String) (n : Network) (o : Option Saved) (w : OnchainBalance)
    → o ≡ some (e, c, n, w)
    → find e c n o ≡ ok (some w)
stored-found e c n o w h =
    rw h (ground (arith, eq_iff e e, eq_iff c c, nat_beq_iff (network_number n) (network_number n)))

pub directory-IsDurable : IsDurable wallet keys directory
directory-IsDurable = record {
  parse-to_string = λ m. refl;
  stored = λ d. d.database;
  exists-write_seed = λ s d h. refl;
  read-write_seed = λ s d h. refl;
  stored-write_seed = λ s d. refl;
  exists-open = λ d. refl;
  read-open = λ d. refl;
  stored-open = λ d. refl;
  exists-load = λ e c n d. refl;
  read-load = λ e c n d. refl;
  stored-load = λ e c n d. refl;
  stored_of_load = λ e c n d w h. found-stored e c n d.database w h;
  load_of_stored = λ e c n d w h. stored-found e c n d.database w h;
  exists-create = λ e c n d. refl;
  read-create = λ e c n d. refl;
  stored-create = λ e c n d w h. cc h;
}

abbrev pub signer : Signer keys
signer = record {
  InMemorySigner = Bytes;
  secure_random_bytes = λ k. (k.0, k);
  expanded_key = λ k. k.0;
  peer_storage_key = λ k. k.0;
  receive_auth_key = λ k. k.0;
  node_id = λ r k. ok k.0;
  ecdh = λ r key tweak k. ok k.0;
  sign_invoice = λ invoice r k. ok k.0;
  sign_bolt12_invoice = λ invoice k. ok k.0;
  sign_gossip_message = λ msg k. ok k.0;
  sign_message = λ msg k. ok "signed";
  generate_channel_keys_id = λ inbound user k. k.0;
  derive_channel_signer = λ id k. k.0;
}

pub signer-IsSeeded : IsSeeded keys signer
signer-IsSeeded = record {
  same_node_id = λ seed r s t s' t'. refl;
  same_signature = λ seed msg s t s' t'. refl;
  same_signer = λ seed id s t s' t'. refl;
}

abbrev pub empty : Disk
empty = record { seed = none; database = none }

abbrev pub begun : Disk
begun = record { seed = some "old"; database = some ("old", "old", signet, funds 0) }

abbrev started : WalletManager wallet keys
started = record { ldk_keys_manager = (1 ∷ [], 10, 11); bdk_wallet = funds 0 }

first_start : new_wallet wallet keys directory [] 10 11 signet empty ≡ (ok started, begun)
unfolding new_wallet mnemonic_of mnemonic_from_file load_or_create manager_of ldk_seed
first_start = refl

new_wallet-restart_example :
    (seed : Bytes) × (started.ldk_keys_manager ≡ (seed, 10, 11))
    × ((new_wallet wallet keys directory (3 ∷ []) 20 21 signet begun).0
        ≡ ok (record { ldk_keys_manager = (seed, 20, 21); bdk_wallet = funds 0 }))
new_wallet-restart_example =
    new_wallet-restart wallet keys directory directory-IsDurable [] (3 ∷ []) 10 11 20 21 signet
      empty begun started first_start refl refl

-- The database is there, its seed file is not: the start fails, and writes none.
abbrev seedless : Disk
seedless = record begun { seed = none }

seedless_fails :
    new_wallet wallet keys directory (3 ∷ []) 20 21 signet seedless ≡ (err "mismatch", seedless)
unfolding new_wallet mnemonic_of mnemonic_from_file load_or_create manager_of ldk_seed
seedless_fails = refl

identity-restart_example :
    (m' : WalletManager wallet keys) × ((new_wallet wallet keys directory
        (3 ∷ [])
        20
        21
        signet
        begun).0
      ≡ ok m')
    × ((r : Recipient)
        → get_node_id wallet keys signer r m' ≡ get_node_id wallet keys signer r started)
    × ((msg : Bytes)
        → sign_message wallet keys signer msg m' ≡ sign_message wallet keys signer msg started)
    × ((id : Bytes)
        → derive_channel_signer wallet keys signer id m'
          ≡ derive_channel_signer wallet keys signer id started)
identity-restart_example =
    identity-restart wallet keys directory directory-IsDurable signer signer-IsSeeded [] (3 ∷ []) 10
      11 20 21 signet empty begun started first_start refl refl
