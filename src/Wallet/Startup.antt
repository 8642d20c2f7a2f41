-- ===== src/Wallet/Startup.antt =====
-- `WalletManager::new` of src/onchain_wallet.rs: the seed file and the wallet's database, over bip39,
-- bitcoin's keys, LDK's `KeysManager` and bdk's persistence, which are an interface.
pub mod Restart
use ln_node.Prelude.{
  ◌≡◌, ℕ, String, Bool, true, Option, none, some, Result, ok, err, ◌>>=◌, if◌then◌else◌,
}
use ln_node.Kv.{Bytes}
use ln_node.Config.{Network}
use ln_node.Wallet.{BdkWallet, KeychainKind, external, internal}

-- bitcoin's `NetworkKind`.
pub data NetworkKind : Type 0 where
  main test : NetworkKind

pub record Keys : Type 1 where
  pub Mnemonic : Type 0
  pub Seed : Type 0
  pub Xpriv : Type 0
  pub Descriptor : Type 0
  pub KeysManager : Type 0
  pub from_entropy : Bytes → Result String Mnemonic
  pub parse : String → Result String Mnemonic
  pub to_string : Mnemonic → String
  pub to_seed_normalized : String → Mnemonic → Seed
  pub new_master : NetworkKind → Seed → Result String Xpriv
  pub derive_hardened : ℕ → Xpriv → Result String Xpriv
  pub secret_bytes : Xpriv → Bytes
  pub bip84 : Xpriv → KeychainKind → Descriptor
  -- From a seed and the time, in seconds and nanoseconds.
  pub keys_manager : Bytes → ℕ → ℕ → Bool → KeysManager

-- The node's directory: the seed file and the database. `load_wallet` and `create_wallet` take the
-- two descriptors and the network.
pub record Directory (B : BdkWallet) (K : Keys) : Type 1 where
  pub State : Type 0
  pub seed_exists : State → Bool
  pub read_seed : State → Result String String
  pub write_seed : String → State → Result String (Unit {0}) × State
  pub open_database : State → Result String (Unit {0}) × State
  pub load_wallet :
      K.Descriptor → K.Descriptor → Network → State → Result String (Option B.State) × State
  pub create_wallet : K.Descriptor → K.Descriptor → Network → State → Result String B.State × State

pub record WalletManager (B : BdkWallet) (K : Keys) : Type 0 where
  pub ldk_keys_manager : K.KeysManager
  pub bdk_wallet : B.State

module _ (B : BdkWallet) (K : Keys) (D : Directory B K) where
  unfoldable pub mnemonic_from_file : D.State → Result String K.Mnemonic
  mnemonic_from_file d = do mnemonic ← D.read_seed d; K.parse mnemonic

  -- `entropy`: the random bytes, drawn only where there is no seed.
  unfoldable pub mnemonic_of : Bytes → D.State → Result String K.Mnemonic
  unfolding mnemonic_from_file
  mnemonic_of entropy d = if D.seed_exists d then mnemonic_from_file d else K.from_entropy entropy

  unfoldable pub load_or_create :
      K.Mnemonic → K.Xpriv → Network → D.State → Result String B.State × D.State
  load_or_create mnemonic xpriv network d =
      let (loaded, d1) =
        D.load_wallet (K.bip84 xpriv external) (K.bip84 xpriv internal) network d in
      elim loaded [
        | err e ↦ (err e, d1)
        | ok (some wallet) ↦ (ok wallet, d1)
        | ok none ↦
            let (saved, d2) = D.write_seed (K.to_string mnemonic) d1 in
            elim saved [
              | err e ↦ (err e, d2)
              | ok _ ↦ D.create_wallet (K.bip84 xpriv external) (K.bip84 xpriv internal) network d2
            ]
      ]

  unfoldable pub ldk_seed : K.Xpriv → Result String Bytes
  ldk_seed xpriv = do ldk_xpriv ← K.derive_hardened 535 xpriv; ok (K.secret_bytes ldk_xpriv)

  -- With a wallet: the LDK keys are derived from the same master key.
  unfoldable pub manager_of :
      ℕ → ℕ → K.Xpriv → Result String B.State → Result String (WalletManager B K)
  unfolding ldk_seed
  manager_of secs nanos xpriv loaded = do
    wallet ← loaded
    seed ← ldk_seed xpriv
    ok (record { ldk_keys_manager = K.keys_manager seed secs nanos true; bdk_wallet = wallet })

  unfoldable pub new_wallet :
      Bytes → ℕ → ℕ → Network → D.State → Result String (WalletManager B K) × D.State
  unfolding mnemonic_of load_or_create manager_of
  new_wallet entropy secs nanos network d = elim (mnemonic_of entropy d) [
    | err e ↦ (err e, d)
    | ok mnemonic ↦ elim (K.new_master test (K.to_seed_normalized "" mnemonic)) [
      | err e ↦ (err e, d)
      | ok xpriv ↦
          let (opened, d1) = D.open_database d in
          elim opened [
            | err e ↦ (err e, d1)
            | ok _ ↦
                let (loaded, d2) = load_or_create mnemonic xpriv network d1 in
                (manager_of secs nanos xpriv loaded, d2)
          ]
    ]
  ]

-- What is relied on: a text form of a mnemonic is read back, and what was written to the seed file;
-- the database keeps one wallet with its descriptors and network, gives it back to a load with those
-- and to no other, and neither touches the other.
pub record IsDurable (B : BdkWallet) (K : Keys) (D : Directory B K) : Type 0 where
  pub parse-to_string : (m : K.Mnemonic) → K.parse (K.to_string m) ≡ ok m
  pub stored : D.State → Option (K.Descriptor × K.Descriptor × Network × B.State)
  pub exists-write_seed :
      (s : String) (d : D.State)
      → (D.write_seed s d).0 ≡ ok tt
      → D.seed_exists (D.write_seed s d).1 ≡ true
  pub read-write_seed :
      (s : String) (d : D.State)
      → (D.write_seed s d).0 ≡ ok tt
      → D.read_seed (D.write_seed s d).1 ≡ ok s
  pub stored-write_seed : (s : String) (d : D.State) → stored (D.write_seed s d).1 ≡ stored d
  pub exists-open : (d : D.State) → D.seed_exists (D.open_database d).1 ≡ D.seed_exists d
  pub read-open : (d : D.State) → D.read_seed (D.open_database d).1 ≡ D.read_seed d
  pub stored-open : (d : D.State) → stored (D.open_database d).1 ≡ stored d
  pub exists-load :
      (e c : K.Descriptor) (n : Network) (d : D.State)
      → D.seed_exists (D.load_wallet e c n d).1 ≡ D.seed_exists d
  pub read-load :
      (e c : K.Descriptor) (n : Network) (d : D.State)
      → D.read_seed (D.load_wallet e c n d).1 ≡ D.read_seed d
  pub stored-load :
      (e c : K.Descriptor) (n : Network) (d : D.State) → stored (D.load_wallet e c n d).1 ≡ stored d
  pub stored_of_load :
      (e c : K.Descriptor) (n : Network) (d : D.State) (w : B.State)
      → (D.load_wallet e c n d).0 ≡ ok (some w)
      → stored d ≡ some (e, c, n, w)
  pub load_of_stored :
      (e c : K.Descriptor) (n : Network) (d : D.State) (w : B.State)
      → stored d ≡ some (e, c, n, w)
      → (D.load_wallet e c n d).0 ≡ ok (some w)
  pub exists-create :
      (e c : K.Descriptor) (n : Network) (d : D.State)
      → D.seed_exists (D.create_wallet e c n d).1 ≡ D.seed_exists d
  pub read-create :
      (e c : K.Descriptor) (n : Network) (d : D.State)
      → D.read_seed (D.create_wallet e c n d).1 ≡ D.read_seed d
  pub stored-create :
      (e c : K.Descriptor) (n : Network) (d : D.State) (w : B.State)
      → (D.create_wallet e c n d).0 ≡ ok w
      → stored (D.create_wallet e c n d).1 ≡ some (e, c, n, w)
