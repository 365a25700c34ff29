-- ===== src/Config/Valid.antt =====
-- What a configuration that loads guarantees, and when it loads.
use mathlib.Core.Path.{subst}
use rosetta_ergo.Base.{
  ◌<◌, ◌^◌, ◌↔◌, ℤ, pos, negsuc, String, false, Option, none, some, ◌≡◌, ◌⊎◌, inl, inr, refl, ap,
  arith, ok, [], wrap_with, ◌>>=◌, >>=-eq-ok, wrap_with-eq-ok, eq_iff, ◌==◌, Bool-cases,
}
use rosetta_ergo.Decimal.{parse_int}
use rosetta_ergo.Ergo.Constants.{
  mainnet_genesis_block_identifier, testnet_genesis_block_identifier, erg_currency, blockchain,
}
use rosetta_ergo.Sdk.{BlockIdentifier}
use rosetta_ergo.Config.{
  Embedded, ensure_path_exists, config_env, node_config_name, Configuration, Host, NetworkPart,
  online, offline, mainnet, testnet, atoi, parse_port, load_mode, load_network, load_rosetta_port,
  load_configuration, get_env, rosetta_mode_env, network_env, rosetta_port_env, node_port_env,
  network_part, rosetta_data_dir_env, indexer_path_name,
}

-- A port is a positive int64.
abbrev pub IsPort : ℤ → Type 0
IsPort (pos n) = (0 < n) × (n < 2 ^ 63)
IsPort (negsuc n) = ⊥

not_empty : (s : String) (z : ℤ) → parse_int s ≡ some z → (s == "") ≡ false
unfolding parse_int
not_empty s z e = elim (Bool-cases (s == "")) [
  | inl empty ↦
      let nothing : parse_int s ≡ none = ap parse_int ((eq_iff s "").0 empty) in cc (e, nothing)
  | inr other ↦ other
]

parse_port_of :
    (s : String) (p : ℤ) (o : Option ℤ)
    → parse_int s ≡ o
    → (parse_port s ≡ ok p) ↔ ((o ≡ some p) × IsPort p)
unfolding parse_port atoi
parse_port_of s p none e = (λ h. absurd (ground arith), λ h. absurd (ground arith))
parse_port_of s p (some (negsuc n)) e =
    (λ h. absurd (ground arith), λ (q, h). absurd (negative p q h))
  where
    negative : (p : ℤ) → some (negsuc n) ≡ some p → ¬ IsPort p
    negative (pos m) q h = cc q
    negative (negsuc m) q h = h
parse_port_of s (negsuc m) (some (pos n)) e =
    (λ h. absurd (ground (arith, not_empty s (pos n) e)), λ h. absurd h.1)
parse_port_of s (pos m) (some (pos n)) e =
    (λ h. ground (arith, not_empty s (pos n) e), λ h. ground (arith, not_empty s (pos n) e))

-- `parse_port` accepts exactly the decimal texts of the positive int64 values, with an optional
-- sign, and returns the value.
pub parse_port_exact :
    (s : String) (p : ℤ) → (parse_port s ≡ ok p) ↔ ((parse_int s ≡ some p) × IsPort p)
parse_port_exact s p = parse_port_of s p (parse_int s) refl

module _ (h : Host) where
  -- Online the indexer's directory exists; offline there is none.
  abbrev pub ModeFits : String → String → String → String → Type 0
  ModeFits value base mode path =
      ((value ≡ online)
        × (mode ≡ online)
        × (path ≡ h.join base indexer_path_name)
        × (h.mkdir_all path ≡ ok tt))
      ⊎ ((value ≡ offline) × (mode ≡ offline) × (path ≡ ""))

  load_mode-ModeFits :
      (value base : String) (r : String × String)
      → load_mode h value base ≡ ok r
      → ModeFits value base r.0 r.1
  unfolding load_mode ensure_path_exists
  load_mode-ModeFits value base r e = elim (Bool-cases (value == online)) [
    | inl is_online ↦
        let e' : (wrap_with "%w: unable to create indexer path" []
                (ensure_path_exists h (h.join base indexer_path_name))
              >>= λ _. ok (online, h.join base indexer_path_name))
            ≡ ok r =
          rw is_online at e in
        let (u, made, q) = >>=-eq-ok _ _ e' in
        let made' : h.mkdir_all (h.join base indexer_path_name) ≡ ok u =
          wrap_with-eq-ok _ _ _ (wrap_with-eq-ok _ _ _ made) in
        inl ((eq_iff value online).0 is_online, ground arith, ground arith, ground arith)
    | inr not_online ↦ elim (Bool-cases (value == offline)) [
      | inl is_offline ↦ inr ((eq_iff value offline).0 is_offline, ground arith, ground arith)
      | inr not_offline ↦ absurd (ground arith)
    ]
  ]

  -- The network, its genesis block and its embedded files belong together.
  abbrev pub PartFits : String → String → BlockIdentifier → Embedded → NetworkPart → Type 0
  PartFits value name genesis files part =
      (value ≡ name)
      × (part.network ≡ record { blockchain = blockchain; network = name })
      × (part.genesis_block_identifier ≡ genesis)
      × (files.genesis_utxos ≡ ok part.genesis_utxos)
      × (files.bootstrap_balances ≡ ok part.bootstrap_balances)

  abbrev pub NetworkFits : String → NetworkPart → Type 0
  NetworkFits value part =
      PartFits value mainnet mainnet_genesis_block_identifier h.mainnet_files part
      ⊎ PartFits value testnet testnet_genesis_block_identifier h.testnet_files part

  network_part-PartFits :
      (name : String) (genesis : BlockIdentifier) (files : Embedded) (part : NetworkPart)
      → network_part name genesis files ≡ ok part
      → PartFits name name genesis files part
  unfolding network_part
  network_part-PartFits name genesis files part e =
      let (utxos, u, e₁) = >>=-eq-ok _ _ e in
      let (balances, b, e₂) = >>=-eq-ok _ _ e₁ in
      let u' : files.genesis_utxos ≡ ok utxos = wrap_with-eq-ok _ _ _ u in
      let b' : files.bootstrap_balances ≡ ok balances = wrap_with-eq-ok _ _ _ b in
      (refl, ground arith, ground arith, ground arith, ground arith)

  load_network-NetworkFits :
      (value : String) (part : NetworkPart)
      → load_network h value ≡ ok part
      → NetworkFits value part
  unfolding load_network
  load_network-NetworkFits value part e = elim (Bool-cases (value == mainnet)) [
    | inl is_main ↦
        let fits =
          network_part-PartFits mainnet mainnet_genesis_block_identifier h.mainnet_files part
            (rw is_main at e) in
        inl ((eq_iff value mainnet).0 is_main, fits.1, fits.2, fits.3, fits.4)
    | inr not_main ↦ elim (Bool-cases (value == testnet)) [
      | inl is_test ↦
          let fits =
            network_part-PartFits testnet testnet_genesis_block_identifier h.testnet_files part
              (rw (not_main, is_test) at e) in
          inr ((eq_iff value testnet).0 is_test, fits.1, fits.2, fits.3, fits.4)
      | inr not_test ↦ absurd (ground arith)
    ]
  ]

  load_rosetta_port-IsPort :
      (s : String) (p : ℤ) → load_rosetta_port h s ≡ ok p → (parse_int s ≡ some p) × IsPort p
  unfolding load_rosetta_port
  load_rosetta_port-IsPort s p e = elim (Bool-cases (s == "")) [
    | inl empty ↦ absurd (ground arith)
    | inr full ↦ (parse_port_exact s p).0 (rw full at e)
  ]

  -- What the configuration has to do with the environment.
  pub record IsLoaded (cfg : Configuration) : Type 0 where
    pub mode_fits :
        ModeFits
          (get_env h rosetta_mode_env)
          (get_env h rosetta_data_dir_env)
          cfg.mode
          cfg.indexer_path
    pub network_fits : NetworkFits (get_env h network_env) (record {
      network = cfg.network;
      genesis_utxos = cfg.genesis_utxos;
      bootstrap_balances = cfg.bootstrap_balances;
      genesis_block_identifier = cfg.genesis_block_identifier;
    })
    pub is_node_port : (parse_int (h.env node_port_env) ≡ some cfg.node_port) × IsPort cfg.node_port
    pub is_rosetta_port :
        (parse_int (get_env h rosetta_port_env) ≡ some cfg.rosetta_port) × IsPort cfg.rosetta_port
    pub in_erg : cfg.currency ≡ erg_currency

  -- A configuration that loads is online with the indexer's directory made, or offline without
  -- one, as the environment asks; its network, genesis block and embedded files are all those of
  -- the one network that the environment names; its ports are the positive int64 values of the
  -- environment's texts, and its currency is ERG.
  pub load_configuration-IsLoaded :
      (cfg : Configuration) → load_configuration h ≡ ok cfg → IsLoaded cfg
  unfolding load_configuration
  load_configuration-IsLoaded cfg e =
      let (m, mode, e₁) = >>=-eq-ok _ _ e in
      let (node_port, node, e₂) = >>=-eq-ok _ _ e₁ in
      let (part, net, e₃) = >>=-eq-ok _ _ e₂ in
      let (rosetta_port, rosetta, e₄) = >>=-eq-ok _ _ e₃ in
      let same : loaded m node_port part rosetta_port ≡ cfg = cc e₄ in
      subst IsLoaded same (record {
        mode_fits = load_mode-ModeFits _ _ m mode;
        network_fits = load_network-NetworkFits _ part net;
        is_node_port = (parse_port_exact _ node_port).0 node;
        is_rosetta_port = load_rosetta_port-IsPort _ rosetta_port rosetta;
        in_erg = refl;
      })
    where
      loaded : String × String → ℤ → NetworkPart → ℤ → Configuration
      loaded m node_port part rosetta_port = record {
        mode = m.0;
        version = h.version;
        network = part.network;
        currency = erg_currency;
        genesis_block_identifier = part.genesis_block_identifier;
        rosetta_port = rosetta_port;
        node_port = node_port;
        indexer_path = m.1;
        genesis_utxos = part.genesis_utxos;
        bootstrap_balances = part.bootstrap_balances;
        node_config_path = h.join (get_env h config_env) node_config_name;
      }
