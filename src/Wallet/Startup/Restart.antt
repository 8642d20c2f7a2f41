-- ===== src/Wallet/Startup/Restart.antt =====
-- The wallet over a restart, and a wallet whose seed is gone.
use ln_node.Prelude.{
  ◌≡◌, ◌∙◌, ℕ, String, true, false, ◌⊎◌, inl, inr, none, some, Result, ok, err, >>=-eq-ok,
  Result-cases, arith,
}
use ln_node.Kv.{Bytes}
use ln_node.Config.{Network}
use ln_node.Wallet.{BdkWallet, external, internal}
use ln_node.Wallet.Startup.{
  test, Keys, Directory, WalletManager, IsDurable, mnemonic_from_file, mnemonic_of, load_or_create,
  ldk_seed, manager_of, new_wallet,
}

module _ (B : BdkWallet) (K : Keys) (D : Directory B K) (L : IsDurable B K D) where
  -- The seed file is as it was, or holds the mnemonic.
  abbrev SeedKept : K.Mnemonic → D.State → D.State → Type 0
  SeedKept m d d' =
      ((D.seed_exists d' ≡ D.seed_exists d) × (D.read_seed d' ≡ D.read_seed d))
      ⊎ ((D.seed_exists d' ≡ true) × (D.read_seed d' ≡ ok (K.to_string m)))

  load_or_create_lem :
      (m : K.Mnemonic) (x : K.Xpriv) (n : Network) (d d' : D.State) (w : B.State)
      → load_or_create B K D m x n d ≡ (ok w, d')
      → (L.stored d' ≡ some (K.bip84 x external, K.bip84 x internal, n, w)) × SeedKept m d d'
  unfolding load_or_create
  load_or_create_lem m x n d d' w h =
      let e = K.bip84 x external in
      let c = K.bip84 x internal in
      let d1 : D.State = (D.load_wallet e c n d).1 in
      let d2 : D.State = (D.write_seed (K.to_string m) d1).1 in
      let d3 : D.State = (D.create_wallet e c n d2).1 in
      elim (Result-cases (D.load_wallet e c n d).0) [
        | inr (x', failed) ↦ absurd (ground (arith, h, failed))
        | inl (some w', loaded) ↦
            let same : w' ≡ w = ground (arith, h, loaded) in
            let left : d1 ≡ d' = ground (arith, h, loaded) in
            (
              rw (← left)
                  (L.stored-load e c n d ∙ rw (← same) (L.stored_of_load e c n d w' loaded)),
              inl (rw (← left) (L.exists-load e c n d), rw (← left) (L.read-load e c n d)),
            )
        | inl (none, empty) ↦ elim (Result-cases (D.write_seed (K.to_string m) d1).0) [
          | inr (x', failed) ↦ absurd (ground (arith, h, empty, failed))
          | inl (_, saved) ↦
              let left : d3 ≡ d' = ground (arith, h, empty, saved) in
              let made : (D.create_wallet e c n d2).0 ≡ ok w = ground (arith, h, empty, saved) in
              (
                rw (← left) (L.stored-create e c n d2 w made),
                inr (
                  rw (← left)
                      (L.exists-create e c n d2 ∙ L.exists-write_seed (K.to_string m) d1 saved),
                  rw (← left) (L.read-create e c n d2 ∙ L.read-write_seed (K.to_string m) d1 saved),
                ),
              )
        ]
      ]

  -- What a successful start went through.
  record Started (entropy : Bytes) (secs nanos : ℕ) (n : Network) (d d' : D.State)
      (m : WalletManager B K) : Type 0 where
    mnemonic : K.Mnemonic
    xpriv : K.Xpriv
    seed : Bytes
    read : mnemonic_of B K D entropy d ≡ ok mnemonic
    master : K.new_master test (K.to_seed_normalized "" mnemonic) ≡ ok xpriv
    derived : ldk_seed B K D xpriv ≡ ok seed
    keys : m.ldk_keys_manager ≡ K.keys_manager seed secs nanos true
    loaded : load_or_create B K D mnemonic xpriv n (D.open_database d).1 ≡ (ok m.bdk_wallet, d')

  manager_of-eq-ok :
      (secs nanos : ℕ) (x : K.Xpriv) (loaded : Result String B.State) (m : WalletManager B K)
      → manager_of B K D secs nanos x loaded ≡ ok m
      → (seed : Bytes) × (loaded ≡ ok m.bdk_wallet)
        × (ldk_seed B K D x ≡ ok seed)
        × (m.ldk_keys_manager ≡ K.keys_manager seed secs nanos true)
  unfolding manager_of
  manager_of-eq-ok secs nanos x loaded m h =
      let (w, there, rest) = >>=-eq-ok loaded _ h in
      let (seed, derived, made) = >>=-eq-ok (ldk_seed B K D x) _ rest in
      (seed, ground (arith, there, made), derived, ground (arith, made))

  new_wallet-Started :
      (entropy : Bytes) (secs nanos : ℕ) (n : Network) (d d' : D.State) (m : WalletManager B K)
      → new_wallet B K D entropy secs nanos n d ≡ (ok m, d')
      → Started entropy secs nanos n d d' m
  unfolding new_wallet
  new_wallet-Started entropy secs nanos n d d' m h =
      elim (Result-cases (mnemonic_of B K D entropy d)) [
        | inr (x, failed) ↦ absurd (ground (arith, h, failed))
        | inl (mn, drawn) ↦ elim (Result-cases (K.new_master test (K.to_seed_normalized "" mn))) [
          | inr (x, failed) ↦ absurd (ground (arith, h, drawn, failed))
          | inl (xp, made) ↦ elim (Result-cases (D.open_database d).0) [
            | inr (x, failed) ↦ absurd (ground (arith, h, drawn, made, failed))
            | inl (_, opened) ↦
                let d1 : D.State = (D.open_database d).1 in
                let result : manager_of B K D secs nanos xp (load_or_create B K D mn xp n d1).0
                    ≡ ok m =
                  ground (arith, h, drawn, made, opened) in
                let left : (load_or_create B K D mn xp n d1).1 ≡ d' =
                  ground (arith, h, drawn, made, opened) in
                let (s, there, from, keys_eq) = manager_of-eq-ok secs nanos xp _ m result in
                record {
                  mnemonic = mn;
                  xpriv = xp;
                  seed = s;
                  read = drawn;
                  master = made;
                  derived = from;
                  keys = keys_eq;
                  loaded = ground (arith, there, left);
                }
          ]
        ]
      ]

  -- A seed file that is there after the start holds the mnemonic that the start used.
  read_back :
      (entropy later : Bytes) (m : K.Mnemonic) (d d1 d' : D.State)
      → mnemonic_of B K D entropy d ≡ ok m
      → D.seed_exists d1 ≡ D.seed_exists d
      → D.read_seed d1 ≡ D.read_seed d
      → SeedKept m d1 d'
      → D.seed_exists d' ≡ true
      → mnemonic_of B K D later d' ≡ ok m
  unfolding mnemonic_of mnemonic_from_file
  read_back entropy later m d d1 d' drawn same_file same_text (inl (file, text)) there =
      ground (arith, drawn, same_file, same_text, file, text, there)
  read_back entropy later m d d1 d' drawn same_file same_text (inr (file, text)) there =
      ground (arith, file, text, L.parse-to_string m)

  -- If what the directory keeps is durable: after a start that left a seed file, the next start,
  -- at any time and whatever random bytes it has, succeeds if the database can be opened, with the
  -- same LDK seed and with the wallet as the first start had it, none of the changes made since.
  pub new_wallet-restart :
      (entropy later : Bytes) (secs nanos secs' nanos' : ℕ) (n : Network) (d d' : D.State)
      (m : WalletManager B K)
      → new_wallet B K D entropy secs nanos n d ≡ (ok m, d')
      → D.seed_exists d' ≡ true
      → (D.open_database d').0 ≡ ok tt
      → (seed : Bytes) × (m.ldk_keys_manager ≡ K.keys_manager seed secs nanos true)
        × ((new_wallet B K D later secs' nanos' n d').0
            ≡ ok (record {
              ldk_keys_manager = K.keys_manager seed secs' nanos' true;
              bdk_wallet = m.bdk_wallet;
            }))
  unfolding new_wallet manager_of load_or_create
  new_wallet-restart entropy later secs nanos secs' nanos' n d d' m h there opens =
      let first = new_wallet-Started entropy secs nanos n d d' m h in
      let x = first.xpriv in
      let d1 : D.State = (D.open_database d).1 in
      let d2 : D.State = (D.open_database d').1 in
      let (kept, file) = load_or_create_lem first.mnemonic x n d1 d' m.bdk_wallet first.loaded in
      let again : mnemonic_of B K D later d' ≡ ok first.mnemonic =
        read_back entropy later first.mnemonic d d1 d' first.read (L.exists-open d) (L.read-open d)
          file there in
      let found : (D.load_wallet (K.bip84 x external) (K.bip84 x internal) n d2).0
          ≡ ok (some m.bdk_wallet) =
        L.load_of_stored _ _ n d2 m.bdk_wallet (L.stored-open d' ∙ kept) in
      (first.seed, first.keys, ground (arith, again, first.master, opens, found, first.derived))

  -- A wallet in the database that bdk does not give back for the keys of newly drawn entropy, as
  -- is so for any other keys: without a seed file the start fails, and writes none.
  pub new_wallet_seedless :
      (entropy : Bytes) (secs nanos : ℕ) (n : Network) (d : D.State) (mn : K.Mnemonic) (x : K.Xpriv)
      (e : String)
      → D.seed_exists d ≡ false
      → K.from_entropy entropy ≡ ok mn
      → K.new_master test (K.to_seed_normalized "" mn) ≡ ok x
      → (D.open_database d).0 ≡ ok tt
      → (D.load_wallet (K.bip84 x external) (K.bip84 x internal) n (D.open_database d).1).0 ≡ err e
      → ((new_wallet B K D entropy secs nanos n d).0 ≡ err e)
        × (D.seed_exists (new_wallet B K D entropy secs nanos n d).1 ≡ false)
  unfolding new_wallet mnemonic_of load_or_create manager_of
  new_wallet_seedless entropy secs nanos n d mn x e gone drawn made opens fails = (
    ground (arith, gone, drawn, made, opens, fails),
    ground (
      arith,
      gone,
      drawn,
      made,
      opens,
      fails,
      L.exists-open d,
      L.exists-load (K.bip84 x external) (K.bip84 x internal) n (D.open_database d).1,
    ),
  )
