-- ===== src/Config/Manager/Reloads.antt =====
-- A manager after any number of reloads.
use vibe_alfa_gen.Prelude.{
  ◌≡◌, refl, sym, ap, ◌∙◌, ◌≢◌, true, false, List, [], String, Option, none, some, inl, inr, ◌⊎◌,
  All, Bool-cases, ◌==◌, string_eq, ℤ, is_positive,
}
use vibe_alfa_gen.Domain.{Result, ok, err, ◌>>=◌}
use vibe_alfa_gen.Domain.Results.{>>=-eq-ok, >>-eq-ok, ok-value}
use vibe_alfa_gen.Proxy.{Consumer}
use vibe_alfa_gen.Config.{Config}
use vibe_alfa_gen.Config.Secrets.{Host}
use vibe_alfa_gen.Config.Validate.{require}
use vibe_alfa_gen.Config.Validate.Systems.{validate_config}
use vibe_alfa_gen.Config.Validate.Sound.{IsValid, require-eq-ok}
use vibe_alfa_gen.Config.Validate.Accepted.{IsAccepted, validate_config-IsAccepted}
use vibe_alfa_gen.Config.Manager.{
  Document, Decoders, unversioned, parse_document, Snapshot, is_unchanged, build_systems,
  snapshot_of, candidate_of, first_manager, build_candidate, Manager, new_manager, success,
  try_publish, reload_context,
}
use vibe_alfa_gen.Config.Manager.Equal.{immutable_equal, systems_equal}
use vibe_alfa_gen.Config.Manager.Published.{AllBuilt, build_systems-IsBuilt}
use vibe_alfa_gen.Config.Manager.Keyed.{IsKeyed, build_systems-keyed, keyed-build_systems}

parse_document-IsAccepted :
    (host : Host) (decoders : Decoders) (doc : Document) (c : Config)
    → parse_document host decoders doc ≡ ok c
    → IsAccepted host c
unfolding parse_document
parse_document-IsAccepted host decoders doc c h = elim (Bool-cases (doc.format == "yaml")) [
  | inl e ↦
      let (raw, decoded, valid) =
        >>=-eq-ok (decoders.yaml doc.data_bytes unversioned) (validate_config host) c
          (rw (parse_document, e) at h) in
      validate_config-IsAccepted host raw c valid
  | inr e ↦ elim (Bool-cases (doc.format == "json")) [
    | inr e1 ↦ absurd (cc (rw (parse_document, e, e1) at h))
    | inl e1 ↦
        let (raw, decoded, valid) =
          >>=-eq-ok (decoders.json doc.data_bytes unversioned) (validate_config host) c
            (rw (parse_document, e, e1) at h) in
        validate_config-IsAccepted host raw c valid
  ]
]

-- The snapshot was built from a configuration whose systems are valid.
pub record IsSnapshotOf (c : Config) (made : Snapshot) : Type 0 where
  pub valid : IsValid c
  pub version : made.version ≡ c.version
  pub built : AllBuilt c made.systems

-- A document that can become the next snapshot, whatever its version: it was read, parsed and accepted, it
-- keeps the parts that are fixed, and the access to each system that is enabled can be resolved.
pub record CanBuild (host : Host) (decoders : Decoders) (initial : Option Config)
    (read : Result Document) : Type 0 where
  pub document : Document
  pub given : read ≡ ok document
  pub config : Config
  pub parsed : parse_document host decoders document ≡ ok config
  pub unchanged : is_unchanged initial config ≡ true
  pub keyed : All (IsKeyed host) config.systems

CanBuild-snapshot :
    (host : Host) (decoders : Decoders) (initial : Option Config) (read : Result Document)
    (can : CanBuild host decoders initial read)
    → (systems : List (String × Consumer)) × (build_candidate host decoders initial read
        ≡ ok (snapshot_of can.config systems, can.config))
unfolding build_candidate
CanBuild-snapshot host decoders initial read can =
    let accepted = parse_document-IsAccepted host decoders can.document can.config can.parsed in
    let (systems, built) =
      keyed-build_systems host can.config can.config.systems [] accepted.systems can.keyed in
    (systems, rw (build_candidate, can.given, can.parsed, can.unchanged, built) refl)

build_candidate-CanBuild :
    (host : Host) (decoders : Decoders) (initial : Option Config) (read : Result Document)
    (made : Snapshot) (c : Config)
    → build_candidate host decoders initial read ≡ ok (made, c)
    → (can : CanBuild host decoders initial read) × (can.config ≡ c) × IsSnapshotOf c made
unfolding build_candidate
build_candidate-CanBuild host decoders initial read made c h =
    let (c0, parsed, rest) =
      >>=-eq-ok (read >>= parse_document host decoders) (candidate_of host initial) (made, c) h in
    let (doc, given, checked) = >>=-eq-ok read (parse_document host decoders) c0 parsed in
    let (unchanged, last) =
      >>-eq-ok (require (is_unchanged initial c0))
        (build_systems host c0 c0.systems [] >>= λ systems. ok (snapshot_of c0 systems, c0))
        (made, c) rest in
    let (systems, built, same) =
      >>=-eq-ok (build_systems host c0 c0.systems []) (λ systems. ok (snapshot_of c0 systems, c0))
        (made, c) last in
    let accepted = parse_document-IsAccepted host decoders doc c0 checked in
    let pair : (snapshot_of c0 systems, c0) ≡ (made, c) = ok-value same in
    let can : CanBuild host decoders initial read = record {
      document = doc;
      given = given;
      config = c0;
      parsed = checked;
      unchanged = require-eq-ok (is_unchanged initial c0) unchanged;
      keyed = build_systems-keyed host c0 c0.systems [] systems accepted.systems built;
    } in
    let snapshot : IsSnapshotOf c0 (snapshot_of c0 systems) = record {
      valid = accepted.systems;
      version = refl;
      built = build_systems-IsBuilt host c0 systems accepted.systems built;
    } in
    (can, ap (λ p. p.1) pair, rw (← ap (λ p. p.0) pair, ← ap (λ p. p.1) pair) snapshot)

-- The parts of a configuration that a reload cannot change.
abbrev pub HasFixed : Config → Config → Type 0
HasFixed c initial = (c ≡ initial) ⊎ (immutable_equal c initial ≡ true)

-- A manager that was started as `start` serves one configuration, which Validate accepted.
pub record IsServing (start m : Manager) : Type 0 where
  pub host : Host
  pub config : Config
  pub accepted : IsAccepted host config
  pub fixed : HasFixed config start.initial
  pub first : m.initial ≡ start.initial
  pub snapshot : IsSnapshotOf config m.current

-- The managers that come of a start and of any reloads, whatever the source and the host answer then.
pub data Reach (decoders : Decoders) (start : Manager) : Manager → Type 0 where
  created :
      (host : Host) (interval : ℤ) (read : Result Document)
      → new_manager host decoders interval read ≡ ok start
      → Reach decoders start start
  reloaded :
      (host : Host) (read : Result Document) {m : Manager}
      → Reach decoders start m
      → Reach decoders start (reload_context host decoders m read).0

-- A reload can publish a document that is built, under another version.
pub record CanPublish (host : Host) (decoders : Decoders) (m : Manager) (read : Result Document)
    : Type 0 where
  pub build : CanBuild host decoders (some m.initial) read
  pub newer : (build.config.version == m.current.version) ≡ false

-- What a reload did that succeeded.
pub record IsPublished (host : Host) (decoders : Decoders) (m : Manager) (read : Result Document)
    (m' : Manager) : Type 0 where
  pub can : CanPublish host decoders m read
  pub snapshot : IsSnapshotOf can.build.config m'.current
  pub first : m'.initial ≡ m.initial

same_version :
    (host : Host) (decoders : Decoders) (m : Manager) (read : Result Document) (made : Snapshot)
    (c : Config)
    → build_candidate host decoders (some m.initial) read ≡ ok (made, c)
    → (made.version == m.current.version) ≡ true
    → ¬ CanPublish host decoders m read
same_version host decoders m read made c h same can =
    let (systems, built) = CanBuild-snapshot host decoders (some m.initial) read can.build in
    let pair : (made, c) ≡ (snapshot_of can.build.config systems, can.build.config) =
      ok-value (sym h ∙ built) in
    let version : made.version ≡ can.build.config.version = ap (λ p. p.0.version) pair in
    absurd (cc (sym same ∙ ap (λ v. v == m.current.version) version ∙ can.newer))

try_publish-outcome :
    (host : Host) (decoders : Decoders) (m : Manager) (read : Result Document)
    (found : Result (Snapshot × Config))
    → build_candidate host decoders (some m.initial) read ≡ found
    → let (m', outcome) = try_publish m found in
      ((m' ≡ m) × (outcome ≢ success) × (¬ CanPublish host decoders m read))
      ⊎ (IsPublished host decoders m read m' × (outcome ≡ success))
try_publish-outcome host decoders m read (err e) h = inl (
  refl,
  λ same. cc same,
  λ can.
      let (_, built) = CanBuild-snapshot host decoders (some m.initial) read can.build in
      absurd (cc (sym h ∙ built)),
)
try_publish-outcome host decoders m read (ok (made, c)) h =
    elim (Bool-cases (made.version == m.current.version)) [
      | inr e ↦
          let (build, same, snapshot) =
            build_candidate-CanBuild host decoders (some m.initial) read made c h in
          let mine : IsSnapshotOf build.config made = rw same snapshot in
          let newer : (build.config.version == m.current.version) ≡ false =
            ap (λ v. v == m.current.version) (sym mine.version) ∙ e in
          rw e (
            inr (
              record {
                can = record { build = build; newer = newer };
                snapshot = mine;
                first = refl;
              },
              refl,
            ))
      | inl e ↦
          let cannot = same_version host decoders m read made c h e in
          elim (Bool-cases (systems_equal made.systems m.current.systems)) [
            | inl e1 ↦ rw (e, e1) (inl (refl, λ same. cc same, cannot))
            | inr e1 ↦ rw (e, e1) (inl (refl, λ same. cc same, cannot))
          ]
    ]

pub reload_context-outcome :
    (host : Host) (decoders : Decoders) (m : Manager) (read : Result Document)
    → let (m', outcome) = reload_context host decoders m read in
      ((m' ≡ m) × (outcome ≢ success) × (¬ CanPublish host decoders m read))
      ⊎ (IsPublished host decoders m read m' × (outcome ≡ success))
unfolding reload_context
reload_context-outcome host decoders m read =
    try_publish-outcome host decoders m read (build_candidate host decoders (some m.initial) read)
      refl

new_manager-IsServing :
    (host : Host) (decoders : Decoders) (interval : ℤ) (read : Result Document) (m : Manager)
    → new_manager host decoders interval read ≡ ok m
    → IsServing m m
unfolding new_manager
new_manager-IsServing host decoders interval read m h =
    let (ticks, rest) =
      >>-eq-ok (require (is_positive interval))
        (build_candidate host decoders none read >>= λ made. ok (first_manager made)) m h in
    let ((made, c), candidate, same) =
      >>=-eq-ok (build_candidate host decoders none read) (λ made. ok (first_manager made)) m
        rest in
    let (build, config, snapshot) =
      build_candidate-CanBuild host decoders none read made c candidate in
    let accepted =
      parse_document-IsAccepted host decoders build.document build.config build.parsed in
    rw (← ok-value same) (record {
      host = host;
      config = c;
      accepted = rw (← config) accepted;
      fixed = inl refl;
      first = refl;
      snapshot = snapshot;
    })

reload_context-IsServing :
    (host : Host) (decoders : Decoders) (start m : Manager) (read : Result Document)
    → IsServing start m
    → IsServing start (reload_context host decoders m read).0
reload_context-IsServing host decoders start m read serving =
    elim (reload_context-outcome host decoders m read) [
      | inl (same, _, _) ↦ rw same serving
      | inr (published, _) ↦
          let build = published.can.build in
          record {
            host = host;
            config = build.config;
            accepted =
                parse_document-IsAccepted host decoders build.document build.config build.parsed;
            fixed = inr (ap (immutable_equal build.config) (sym serving.first) ∙ build.unchanged);
            first = published.first ∙ serving.first;
            snapshot = published.snapshot;
          }
    ]

pub Reach-IsServing :
    (decoders : Decoders) (start m : Manager) → Reach decoders start m → IsServing start m
Reach-IsServing decoders start _ (created host interval read h) =
    new_manager-IsServing host decoders interval read start h
Reach-IsServing decoders start _ (reloaded host read {m = m} before) =
    reload_context-IsServing host decoders start m read (Reach-IsServing decoders start m before)
