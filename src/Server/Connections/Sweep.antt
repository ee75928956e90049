-- ===== src/Server/Connections/Sweep.antt =====
-- src/server.c: what the sweep of the idle connections takes away.
use vecdb.Prelude.{
  ℕ, ◌+◌, ◌<◌, ◌≡◌, ◌⊎◌, inl, inr, sym, ap, ◌∙◌, List, [], ◌∷◌, ◌++◌, map, append_assoc, append-nil,
  Option, none, some,
}
use vecdb.Prelude.{arith, true, false, All, Bool-cases}
use vecdb.Prelude.Bytes.{u64_mod}
use vecdb.Server.Connection.{is_idle}
use vecdb.Server.Connection.Frame.{is_idle_iff}
use vecdb.Server.Connections.{Tracked, Tracker, drop_conn, swept_place, sweep_places, sweep}

-- The time of a connection is a `uint64_t`.
abbrev pub HasTime : Option Tracked → Type 0
HasTime none = Unit {0}
HasTime (some c) = c.last_active < u64_mod

-- Not active for more than 300 seconds, or active after the clock was read, unless that lies 2^64 - 300
-- seconds back.
abbrev pub IsPast : ℕ → Tracked → Type 0
IsPast now c =
    (c.last_active + 300 < now) ⊎ ((now < c.last_active) × (c.last_active + 300 < now + u64_mod))

-- Some places, the places once the idle ones are empty, and the idle ones in their order.
pub data Swept (now : ℕ)
    : List (Option Tracked) → List (Option Tracked) → List Tracked → Type 0 where
  over : Swept now [] [] []
  free :
      {more after : List (Option Tracked)} {cs : List Tracked}
      → Swept now more after cs
      → Swept now (none ∷ more) (none ∷ after) cs
  busy :
      {c : Tracked} {more after : List (Option Tracked)} {cs : List Tracked}
      → (IsPast now c → ⊥)
      → Swept now more after cs
      → Swept now (some c ∷ more) (some c ∷ after) cs
  idle :
      {c : Tracked} {more after : List (Option Tracked)} {cs : List Tracked}
      → IsPast now c
      → Swept now more after cs
      → Swept now (some c ∷ more) (none ∷ after) (c ∷ cs)

abbrev pub fds_of : List Tracked → List ℕ
fds_of cs = map (λ c. c.fd) cs

abbrev pub blocks_of : List Tracked → List ℕ
blocks_of cs = map (λ c. c.block) cs

-- The tracker with some places behind its own, and some connections dropped.
abbrev with_swept : List (Option Tracked) → List Tracked → Tracker → Tracker
with_swept after cs t = record {
  active_connections = t.active_connections ++ after;
  closed = t.closed ++ fds_of cs;
  freed = t.freed ++ blocks_of cs;
}

-- One more place in front.
with_swept-place :
    (p : Option Tracked) (after : List (Option Tracked)) (cs : List Tracked) (t : Tracker)
    → with_swept after cs (record t { active_connections = t.active_connections ++ (p ∷ []) })
      ≡ with_swept (p ∷ after) cs t
with_swept-place p after cs t =
    ap
      (λ l. record {
        active_connections = l;
        closed = t.closed ++ fds_of cs;
        freed = t.freed ++ blocks_of cs;
      })
      (append_assoc t.active_connections (p ∷ []) after)

not_both : true ≡ false → ⊥
not_both e = ground (arith, e)

stays :
    (now : ℕ) (c : Tracked)
    → now < u64_mod
    → c.last_active < u64_mod
    → (IsPast now c → ⊥)
    → is_idle now c.last_active ≡ false
stays now c h time recent = elim (Bool-cases (is_idle now c.last_active)) [
  | inl e ↦ absurd (recent ((is_idle_iff now c.last_active h time).0 e))
  | inr e ↦ e
]

sweep_places_lem :
    (now : ℕ) (t : Tracker) {places after : List (Option Tracked)} {cs : List Tracked}
    → now < u64_mod
    → All HasTime places
    → Swept now places after cs
    → sweep_places now places t ≡ with_swept after cs t
unfolding sweep_places swept_place
sweep_places_lem now t h times over = λ i. record {
  active_connections = sym (append-nil t.active_connections) i;
  closed = sym (append-nil t.closed) i;
  freed = sym (append-nil t.freed) i;
}
sweep_places_lem now t h times (free {after = after} {cs = cs} swept) =
    sweep_places_lem now (record t { active_connections = t.active_connections ++ (none ∷ []) }) h
      times.1 swept
    ∙ with_swept-place none after cs t
sweep_places_lem now t h times (busy {c = c} {after = after} {cs = cs} e swept) =
    rw (stays now c h times.0 e) (
      sweep_places_lem now (record t { active_connections = t.active_connections ++ (some c ∷ []) })
        h times.1 swept
      ∙ with_swept-place (some c) after cs t)
sweep_places_lem now t h times (idle {c = c} {after = after} {cs = cs} e swept) =
    rw ((is_idle_iff now c.last_active h times.0).1 e) (
      sweep_places_lem now
        (drop_conn c (record t { active_connections = t.active_connections ++ (none ∷ []) })) h
        times.1 swept
      ∙ (λ i. record {
        active_connections = append_assoc t.active_connections (none ∷ []) after i;
        closed = append_assoc t.closed (c.fd ∷ []) (fds_of cs) i;
        freed = append_assoc t.freed (c.block ∷ []) (blocks_of cs) i;
      }))

idle_ones :
    (now : ℕ) (places : List (Option Tracked))
    → now < u64_mod
    → All HasTime places
    → (after : List (Option Tracked)) × (cs : List Tracked) × Swept now places after cs
idle_ones now [] h times = ([], [], over)
idle_ones now (none ∷ more) h times =
    let rest = idle_ones now more h times.1 in (none ∷ rest.0, rest.1, free rest.2)
idle_ones now (some c ∷ more) h times =
    let rest = idle_ones now more h times.1 in
    elim (Bool-cases (is_idle now c.last_active)) [
      | inl e ↦
          (none ∷ rest.0, c ∷ rest.1, idle ((is_idle_iff now c.last_active h times.0).0 e) rest.2)
      | inr e ↦ (
        some c ∷ rest.0,
        rest.1,
        busy (λ past. not_both (sym ((is_idle_iff now c.last_active h times.0).1 past) ∙ e)) rest.2,
      )
    ]

-- The sweep of `sync_worker` empties the places of the connections that are past their time and leaves
-- every other place as it was; each of these connections is closed and freed once, in the order of the
-- places, and none other. Past its time is a connection that has been silent for more than 300 seconds,
-- or has been active since the clock was read, unless that lies 2^64 - 300 seconds back. The times of
-- the connections are `uint64_t`.
pub sweep_takes_idle :
    (now : ℕ) (t : Tracker)
    → now < u64_mod
    → All HasTime t.active_connections
    → (after : List (Option Tracked)) × (cs : List Tracked) × Swept now t.active_connections after
        cs
      × (sweep now t ≡ record {
        active_connections = after;
        closed = t.closed ++ fds_of cs;
        freed = t.freed ++ blocks_of cs;
      })
unfolding sweep
sweep_takes_idle now t h times =
    let found = idle_ones now t.active_connections h times in
    (
      found.0,
      found.1,
      found.2,
      sweep_places_lem now (record t { active_connections = [] }) h times found.2,
    )
