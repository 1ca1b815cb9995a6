-- ===== src/LocoStore/Store.antt =====
-- loco_store.go: LocoStateStore without its Redis reads and the function commands. Times are
-- nanoseconds since an epoch, and 0 is Go's zero `time.Time`. FlushOne gives up the locks while Redis
-- writes, so its two halves are separate steps.
use bigfred.Base.{
  ℕ, zero, suc, ◌+◌, ◌/◌, ◌%◌, ◌^◌, Bool, true, false, not, ◌&&◌, ◌||◌, String, Option, none, some,
  List, [], ◌∷◌, Map, lookup, insert, erase, leb, ◌==◌, nat_key, if◌then◌else◌, maybe,
}

-- contract's LocoStateWire
pub record LocoStateWire : Type 0 where
  pub address : ℕ
  pub speed : ℕ
  pub forward : Bool
  pub functions : List Bool
  pub controlled_by_user_id : ℕ
  pub source : String
  pub at : ℕ

pub record LocoEntry : Type 0 where
  pub snap : LocoStateWire
  pub commanded_speed : ℕ
  pub commanded_fwd : Bool
  pub commanded_at : ℕ

pub record LocoStateStore : Type 0 where
  pub entries : Map ℕ LocoEntry
  pub dirty : Map ℕ (Unit {0})

-- What a command station reports of a locomotive.
pub record LocoObservation : Type 0 where
  pub addr : ℕ
  pub has_speed : Bool
  pub speed : ℕ
  pub has_forward : Bool
  pub forward : Bool
  pub function_mask : ℕ
  pub function_bits : ℕ

abbrev pub unknown_snap : ℕ → LocoStateWire
unknown_snap addr = record {
  address = addr;
  speed = 0;
  forward = true;
  functions = [];
  controlled_by_user_id = 0;
  source = "";
  at = 0;
}

-- commandSuppressWindow
abbrev pub command_suppress_window : ℕ
command_suppress_window = 750_000_000

-- obsFnRange
abbrev pub obs_fn_range : ℕ
obs_fn_range = 28

-- `UnixMilli`
abbrev pub unix_milli : ℕ → ℕ
unix_milli now = now / 1_000_000

-- contract's UISpeedFromWire
abbrev pub ui_speed_from_wire : ℕ → ℕ
ui_speed_from_wire wire = if wire == 1 then 0 else wire

-- `entry`, which creates a missing entry; the caller writes it back.
unfoldable pub entry : ℕ → LocoStateStore → LocoEntry
entry addr s =
    maybe
      (record {
        snap = unknown_snap addr;
        commanded_speed = 0;
        commanded_fwd = false;
        commanded_at = 0;
      })
      (λ e. e) (lookup addr s.entries)

abbrev pub put_entry : ℕ → LocoEntry → LocoStateStore → LocoStateStore
put_entry addr e s = record s { entries = insert addr e s.entries }

abbrev pub mark_dirty : ℕ → LocoStateStore → LocoStateStore
mark_dirty addr s = record s { dirty = insert addr tt s.dirty }

unfoldable pub snapshot : ℕ → LocoStateStore → LocoStateWire
snapshot addr s = (entry addr s).snap

-- What SetSpeed and SetSpeedPreservingUser share.
unfoldable pub command_speed : ℕ → ℕ → Bool → ℕ → String → ℕ → LocoStateStore → LocoStateStore
command_speed addr speed forward user source now s =
    let e = entry addr s in
    let snap : LocoStateWire = record (e.snap) {
      address = addr;
      speed = speed;
      forward = forward;
      controlled_by_user_id = user;
      source = source;
      at = unix_milli now;
    } in
    mark_dirty addr (
      put_entry addr
        (record {
          snap = snap;
          commanded_speed = speed;
          commanded_fwd = forward;
          commanded_at = now;
        })
        s)

unfoldable pub set_speed : ℕ → ℕ → Bool → ℕ → String → ℕ → LocoStateStore → LocoStateStore
set_speed addr speed forward user source now s = command_speed addr speed forward user source now s

unfoldable pub set_speed_preserving_user :
    ℕ → ℕ → Bool → String → ℕ → LocoStateStore → LocoStateStore
set_speed_preserving_user addr speed forward source now s =
    command_speed addr speed forward (snapshot addr s).controlled_by_user_id source now s

unfoldable pub set_from_bus : ℕ → ℕ → Bool → List Bool → ℕ → ℕ → LocoStateStore → LocoStateStore
set_from_bus addr speed forward fns user now s =
    let e = entry addr s in
    mark_dirty addr (
      put_entry addr
        (record e {
          snap = record {
            address = addr;
            speed = speed;
            forward = forward;
            functions = fns;
            controlled_by_user_id = user;
            source = "bus-sync";
            at = unix_milli now;
          };
          commanded_at = 0;
        })
        s)

abbrev pub bool_beq : Bool → Bool → Bool
bool_beq true b = b
bool_beq false b = not b

-- Whether the observation differs from the command, in a field that it has.
abbrev pub contradicts : LocoObservation → LocoEntry → Bool
contradicts o e =
    o.has_speed && not (ui_speed_from_wire o.speed == e.commanded_speed)
    || o.has_forward && not (bool_beq o.forward e.commanded_fwd)

-- The window of the last command after the observation, and whether its motion is suppressed.
unfoldable pub observe_window : LocoObservation → ℕ → LocoEntry → ℕ × Bool
observe_window o now e =
    if e.commanded_at == 0 || not (o.has_speed || o.has_forward)
    then (e.commanded_at, false)
    else if leb (e.commanded_at + command_suppress_window) now
    then (0, false)
    else if contradicts o e
    then (e.commanded_at, true)
    else if o.has_speed && o.has_forward
    then (0, false)
    else (e.commanded_at, false)

-- The speed, the direction, and whether one of them changed.
unfoldable pub observe_motion : LocoObservation → LocoStateWire → ℕ × Bool × Bool
observe_motion o snap =
    let speed = if o.has_speed then ui_speed_from_wire o.speed else snap.speed in
    let forward = if o.has_forward then o.forward else snap.forward in
    (speed, forward, not (speed == snap.speed) || not (bool_beq forward snap.forward))

-- The functions with one set, grown by `false` where they end before it.
unfoldable pub set_function_at : ℕ → Bool → List Bool → List Bool
set_function_at zero on [] = on ∷ []
set_function_at zero on (f ∷ fs) = on ∷ fs
set_function_at (suc n) on [] = false ∷ set_function_at n on []
set_function_at (suc n) on (f ∷ fs) = f ∷ set_function_at n on fs

-- The function's state, off where the functions end before it.
unfoldable pub function_at : ℕ → List Bool → Bool
function_at n [] = false
function_at zero (f ∷ fs) = f
function_at (suc n) (f ∷ fs) = function_at n fs

-- `bits & (1 << fn) != 0`
abbrev pub has_bit : ℕ → ℕ → Bool
has_bit fn bits = bits / 2 ^ fn % 2 == 1

-- The loop over the functions, for `count` of them from `fn` on: the functions, and whether one changed.
unfoldable pub observe_functions : LocoObservation → ℕ → ℕ → List Bool × Bool → List Bool × Bool
observe_functions o fn zero (fs, changed) = (fs, changed)
observe_functions o fn (suc count) (fs, changed) = observe_functions o (suc fn) count (
    if has_bit fn o.function_mask
    then (
      set_function_at fn (has_bit fn o.function_bits) fs,
      changed || not (bool_beq (function_at fn fs) (has_bit fn o.function_bits)),
    )
    else (fs, changed))

-- ApplyObservation on the entry: the entry, and whether its state changed.
unfoldable pub observe_entry : LocoObservation → String → ℕ → LocoEntry → LocoEntry × Bool
observe_entry o source now e =
    let (commanded_at, suppressed) = observe_window o now e in
    let motion = observe_motion o e.snap in
    let speed = if suppressed then e.snap.speed else motion.0 in
    let forward = if suppressed then e.snap.forward else motion.1 in
    let moved = if suppressed then false else motion.2 in
    let (fs, changed) = observe_functions o 0 (obs_fn_range + 1) (e.snap.functions, moved) in
    let snap : LocoStateWire = record (e.snap) {
      speed = speed;
      forward = forward;
      functions = fs;
    } in
    let stamped : LocoStateWire = if changed then record snap { at = unix_milli now } else snap in
    let owned : LocoStateWire =
      if changed && e.commanded_at == 0
      then record stamped { controlled_by_user_id = 0; source = source }
      else stamped in
    (record e { snap = owned; commanded_at = commanded_at }, changed)

unfoldable pub apply_observation :
    LocoObservation → String → ℕ → LocoStateStore → LocoStateStore × Bool
apply_observation o source now s =
    let (e, changed) = observe_entry o source now (entry o.addr s) in
    let s1 = put_entry o.addr e s in (if changed then mark_dirty o.addr s1 else s1, changed)

-- The first half of flushOne: the snapshot that goes to Redis, none without an entry.
unfoldable pub begin_flush : ℕ → LocoStateStore → Option LocoStateWire
begin_flush addr s = elim (lookup addr s.entries) [ none ↦ none | some e ↦ some e.snap ]

-- The second half, after Redis has taken the snapshot or failed.
unfoldable pub finish_flush : ℕ → LocoStateWire → Bool → LocoStateStore → LocoStateStore
finish_flush addr snap stored s =
    if stored && (snapshot addr s).at == snap.at then record s { dirty = erase addr s.dirty } else s
