-- ===== src/ConnectionHandler/Discovery.antt =====
-- Which connection `discover` makes.
use brewblox_devcon_spark.Base.{
  ℕ, zero, suc, ◌+◌, ◌≤◌, ◌<◌, ◌≡◌, refl, ap, sym, ◌∙◌, Bool, true, false, Option, none, some,
  arith, ◌⊎◌, inl, inr, subst, Bool-cases, ◌==◌,
}
use brewblox_devcon_spark.Base.Exn.{Result, ok, err, connection_aborted, timeout_error}
use brewblox_devcon_spark.Models.Config.{DiscoveryType}
use brewblox_devcon_spark.ConnectionHandler.{
  ConnectionImpl, Source, Tries, try_all, or_next, discovery_rounds, or_aborted, discover,
  discovered,
}

-- Whether the setting lets the source be tried.
abbrev pub allows : DiscoveryType → Source → Bool
allows DiscoveryType.all Source.usb = true
allows DiscoveryType.all Source.mdns = true
allows DiscoveryType.all Source.mqtt = true
allows DiscoveryType.usb Source.usb = true
allows DiscoveryType.mdns Source.mdns = true
allows DiscoveryType.mqtt Source.mqtt = true
allows _ _ = false

-- USB comes first, then mDNS, then MQTT.
abbrev pub rank : Source → ℕ
rank Source.usb = 0
rank Source.mdns = 1
rank Source.mqtt = 2
rank _ = 3

-- No device and no exception.
abbrev pub IsNothing : Result (Option ConnectionImpl) → Type 0
IsNothing a = a ≡ ok none

-- The first try of the round to give a device or an exception.
FirstOf : Tries → DiscoveryType → ℕ → Source → Type 0
FirstOf tries kind round s =
    (allows kind s ≡ true)
    × (¬ IsNothing (tries round s))
    × ((t : Source) → allows kind t ≡ true → rank t < rank s → IsNothing (tries round t))

answer_cases :
    (a : Result (Option ConnectionImpl))
    → IsNothing a
      ⊎ ((¬ IsNothing a) × ((later : Result (Option ConnectionImpl)) → or_next a later ≡ a))
unfolding or_next
answer_cases (err e) = inr (λ h. cc, λ later. refl)
answer_cases (ok none) = inl refl
answer_cases (ok (some impl)) = inr (λ h. cc, λ later. refl)

or_next_nothing : (a later : Result (Option ConnectionImpl)) → IsNothing a → or_next a later ≡ later
unfolding or_next
or_next_nothing a later h = rw h refl

allows-usb : (s : Source) → allows DiscoveryType.usb s ≡ true → s ≡ Source.usb
allows-usb Source.mock a = cc
allows-usb Source.simulation a = cc
allows-usb Source.tcp a = cc
allows-usb Source.usb a = refl
allows-usb Source.mdns a = cc
allows-usb Source.mqtt a = cc

allows-mdns : (s : Source) → allows DiscoveryType.mdns s ≡ true → s ≡ Source.mdns
allows-mdns Source.mock a = cc
allows-mdns Source.simulation a = cc
allows-mdns Source.tcp a = cc
allows-mdns Source.usb a = cc
allows-mdns Source.mdns a = refl
allows-mdns Source.mqtt a = cc

allows-mqtt : (s : Source) → allows DiscoveryType.mqtt s ≡ true → s ≡ Source.mqtt
allows-mqtt Source.mock a = cc
allows-mqtt Source.simulation a = cc
allows-mqtt Source.tcp a = cc
allows-mqtt Source.usb a = cc
allows-mqtt Source.mdns a = cc
allows-mqtt Source.mqtt a = refl

-- What holds for the three sources.
by_source {ℓ} :
    (P : Source → Type ℓ)
    → P Source.usb
    → P Source.mdns
    → P Source.mqtt
    → (s : Source) → allows DiscoveryType.all s ≡ true
    → P s
by_source P u d q Source.mock a = cc
by_source P u d q Source.simulation a = cc
by_source P u d q Source.tcp a = cc
by_source P u d q Source.usb a = u
by_source P u d q Source.mdns a = d
by_source P u d q Source.mqtt a = q

module _ (tries : Tries) (round : ℕ) where
  Round : DiscoveryType → Type 0
  unfolding FirstOf
  Round kind =
      (IsNothing (try_all tries round (discovered kind))
        × ((s : Source) → allows kind s ≡ true → IsNothing (tries round s)))
      ⊎ ((s : Source) × FirstOf tries kind round s
          × (try_all tries round (discovered kind) ≡ tries round s))

  -- A try and what comes behind it.
  Head : Source → Result (Option ConnectionImpl) → Type 0
  Head s later =
      (IsNothing (tries round s) × (or_next (tries round s) later ≡ later))
      ⊎ ((¬ IsNothing (tries round s)) × (or_next (tries round s) later ≡ tries round s))

  head : (s : Source) (later : Result (Option ConnectionImpl)) → Head s later
  unfolding Head
  head s later = elim (answer_cases (tries round s)) [
    | inl n ↦ inl (n, or_next_nothing (tries round s) later n)
    | inr (y, e) ↦ inr (y, e later)
  ]

  only_one :
      (kind : DiscoveryType) (x : Source)
      → (try_all tries round (discovered kind) ≡ or_next (tries round x) (ok none))
      → allows kind x ≡ true
      → ((s : Source) → allows kind s ≡ true → s ≡ x)
      → Round kind
  unfolding Round Head FirstOf
  only_one kind x is allowed same = elim (head x (ok none)) [
    | inl (n, e) ↦ inl (is ∙ e, λ s a. subst (λ t. IsNothing (tries round t)) (sym (same s a)) n)
    | inr (y, e) ↦
        inr (x, (allowed, y, λ s a l. absurd (omega (arith, l, ap rank (same s a)))), is ∙ e)
  ]

  all_sources : Round DiscoveryType.all
  unfolding Round Head FirstOf try_all discovered
  all_sources =
      let behind = or_next (tries round Source.mqtt) (ok none) in
      let mdns_on = or_next (tries round Source.mdns) behind in
      elim (head Source.usb mdns_on) [
        | inr (y, e) ↦ inr (Source.usb, (refl, y, λ s a l. absurd (omega (arith, l))), e)
        | inl (nu, eu) ↦ elim (head Source.mdns behind) [
          | inr (y, e) ↦ inr (
            Source.mdns,
            (
              refl,
              y,
              by_source (λ s. rank s < 1 → IsNothing (tries round s)) (λ l. nu)
                  (λ l. absurd (omega (arith, l))) (λ l. absurd (omega (arith, l))),
            ),
            eu ∙ e,
          )
          | inl (nd, ed) ↦ elim (head Source.mqtt (ok none)) [
            | inr (y, e) ↦ inr (
              Source.mqtt,
              (
                refl,
                y,
                by_source (λ s. rank s < 2 → IsNothing (tries round s)) (λ l. nu) (λ l. nd)
                    (λ l. absurd (omega (arith, l))),
              ),
              eu ∙ ed ∙ e,
            )
            | inl (nq, eq) ↦ inl (eu ∙ ed ∙ eq, by_source (λ s. IsNothing (tries round s)) nu nd nq)
          ]
        ]
      ]

  one_round : (kind : DiscoveryType) → Round kind
  unfolding try_all discovered
  one_round DiscoveryType.usb = only_one DiscoveryType.usb Source.usb refl refl allows-usb
  one_round DiscoveryType.mdns = only_one DiscoveryType.mdns Source.mdns refl refl allows-mdns
  one_round DiscoveryType.mqtt = only_one DiscoveryType.mqtt Source.mqtt refl refl allows-mqtt
  one_round DiscoveryType.all = all_sources

-- No try of these rounds gives a device or an exception.
abbrev pub AreSilent : Tries → DiscoveryType → ℕ → ℕ → Type 0
AreSilent tries kind from to =
    (n : ℕ) (s : Source) → allows kind s ≡ true → from ≤ n → n < to → IsNothing (tries n s)

-- What the rounds end with.
Ended : Tries → DiscoveryType → ℕ → ℕ → Result (Option ConnectionImpl) → Type 0
unfolding FirstOf
Ended tries kind left round r =
    ((r ≡ err timeout_error) × AreSilent tries kind round (round + left))
    ⊎ ((n : ℕ) × (s : Source) × (round ≤ n)
        × (n < round + left)
        × FirstOf tries kind n s
        × AreSilent tries kind round n
        × (r ≡ tries n s))

AreSilent-suc :
    (tries : Tries) (kind : DiscoveryType) (round to : ℕ)
    → ((s : Source) → allows kind s ≡ true → IsNothing (tries round s))
    → AreSilent tries kind (suc round) to
    → AreSilent tries kind round to
AreSilent-suc tries kind round to here later n s a l m = elim (Bool-cases (round == n)) [
  | inl same ↦ subst (λ k. IsNothing (tries k s)) (ground arith) (here s a)
  | inr other ↦ later n s a (ground arith) m
]

or_next_answer : (a later : Result (Option ConnectionImpl)) → ¬ IsNothing a → or_next a later ≡ a
or_next_answer a later y = elim (answer_cases a) [ inl n ↦ absurd (y n) | inr (y, e) ↦ e later ]

discovery_rounds-Ended :
    (tries : Tries) (kind : DiscoveryType) (left round : ℕ)
    → Ended tries kind left round (discovery_rounds tries kind left round)
unfolding Ended discovery_rounds Round FirstOf
discovery_rounds-Ended tries kind zero round = inl (refl, λ n s a l m. absurd (omega (arith, l, m)))
discovery_rounds-Ended tries kind (suc left) round =
    let later = discovery_rounds tries kind left (suc round) in
    next (one_round tries round kind) (discovery_rounds-Ended tries kind left (suc round))
  where
    next :
        Round tries round kind
        → Ended tries kind left (suc round) (discovery_rounds tries kind left (suc round))
        → Ended tries kind (suc left) round (
            or_next
              (try_all tries round (discovered kind))
              (discovery_rounds tries kind left (suc round)))
    next (inr (s, first, e)) later = inr (
      round,
      s,
      omega arith,
      omega arith,
      first,
      λ n t a l m. absurd (omega (arith, l, m)),
      rw e (or_next_answer (tries round s) (discovery_rounds tries kind left (suc round)) first.1),
    )
    next (inl (n, quiet)) (inl (e, silent)) = inl (
      or_next_nothing _ (discovery_rounds tries kind left (suc round)) n ∙ e,
      AreSilent-suc tries kind round (round + suc left) quiet
          (λ n s a l m. silent n s a l (omega (arith, m))),
    )
    next (inl (n, quiet)) (inr (m, s, l, k, first, silent, e)) = inr (
      m,
      s,
      omega (arith, l),
      omega (arith, k),
      first,
      AreSilent-suc tries kind round m quiet silent,
      or_next_nothing _ (discovery_rounds tries kind left (suc round)) n ∙ e,
    )

at_timeout : or_aborted (err timeout_error) ≡ err connection_aborted
unfolding or_aborted
at_timeout = refl

-- Discovery ends in one of two ways. Either no allowed source gives a device or an exception in the
-- rounds before the timeout, and it raises ConnectionAbortedError; or it ends with what one allowed
-- source gives in one of these rounds, a TimeoutError turned into ConnectionAbortedError, where no
-- allowed source gave anything in an earlier round, nor in the same round one that comes before it:
-- USB is before mDNS, and mDNS before MQTT.
pub discover_first :
    (tries : Tries) (kind : DiscoveryType) (left round : ℕ)
    → ((discover tries kind left round ≡ err connection_aborted)
        × AreSilent tries kind round (round + left))
      ⊎ ((n : ℕ) × (s : Source) × (round ≤ n)
          × (n < round + left)
          × (allows kind s ≡ true)
          × (¬ IsNothing (tries n s))
          × AreSilent tries kind round n
          × ((t : Source) → allows kind t ≡ true → rank t < rank s → IsNothing (tries n t))
          × (discover tries kind left round ≡ or_aborted (tries n s)))
unfolding discover Ended FirstOf
discover_first tries kind left round = elim (discovery_rounds-Ended tries kind left round) [
  | inl (e, silent) ↦ inl (ap or_aborted e ∙ at_timeout, silent)
  | inr (n, s, l, k, first, silent, e) ↦
      inr (n, s, l, k, first.0, first.1, silent, first.2, ap or_aborted e)
]
