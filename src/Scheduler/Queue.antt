-- ===== src/Scheduler/Queue.antt =====
-- The sections of `SharedSemanticScheduler` that admit, move and drop path reservations. Each
-- function is what the code does while it holds the condition, for the owner that it looked up.
use vault_bridge.Base.{
  ℕ, ◌+◌, ◌-◌, max, String, Bool, true, false, not, ◌&&◌, ◌||◌, Option, none, some, List, [], ◌∷◌,
  leb, ◌==◌, str_eq, if◌then◌else◌, is_some, length,
}
use vault_bridge.Base.Sets.{mem, minus, insert, union}
use vault_bridge.Base.Dict.{get, put, delete, keys}
use vault_bridge.Scheduler.State.{
  Result, ok, raise, ◌>>=◌, ◌>>◌, guard, SpaceId, Binding, QualifiedPath, Owner, Scheduler, Outcome,
  invalid_scope, indexing_disabled, unavailable_space, runtime_error, global_target_limit,
  space_target_limit, find, identities, commit, same_token,
}

-- the look-up and the identity test at the end of `_entry`
abbrev pub same_owner : Binding → Option Owner → Result Owner
same_owner b none = raise invalid_scope
same_owner b (some e) = if e.owners_id == b.owners_id then ok e else raise invalid_scope

-- _entry
unfoldable pub entry : Binding → Scheduler → Result Owner
entry b s = do
  guard b.accepted invalid_scope
  guard (b.read_allowed && b.indexing_enabled) indexing_disabled
  same_owner b (find b.space_id s.owners)

-- What `_canonical_entry` asks of other modules: the normal form of a path, its suffix and
-- directories, and the canonical path that the vault finds for it.
pub record Paths : Type 0 where
  pub normalize : String → Result String
  pub is_eligible : String → Bool
  pub resolve : String → Result String

-- the end of `_canonical_entry`, from the test of `_closed`
abbrev pub canonical_of : Paths → Owner → String → Bool → Result (Owner × Option String)
canonical_of p e normalized true = ok (e, none)
canonical_of p e normalized false = do
  canonical ← p.resolve normalized
  guard (p.is_eligible canonical) invalid_scope
  ok (e, some canonical)

-- _canonical_entry; `none` once admission is closed
unfoldable pub canonical_entry :
    Paths → Binding → QualifiedPath → Scheduler → Result (Owner × Option String)
unfolding entry
canonical_entry p b q s = do
  e ← entry b s
  guard (q.space_id == b.space_id) invalid_scope
  normalized ← p.normalize q.relative_path
  guard (p.is_eligible normalized) invalid_scope
  canonical_of p e normalized s.closed

-- _request_full
abbrev pub request_full : Owner → Owner
request_full e = record e {
  full_needed = true;
  full_again = e.full_active || e.running || e.full_again;
}

-- _wake; a new event in place of `cancel` is one that is not set
abbrev pub wake : Bool → Owner → Owner
wake closed e =
    let busy = e.running || is_some e.continuation in
    if closed then e else record e {
      wake_pending = e.running || e.cancel && is_some e.continuation || e.wake_pending;
      cancel = e.cancel && busy;
      paused = e.cancel && busy && e.paused;
    }

-- _admit
abbrev pub admit : Bool → ℕ → Owner → String → Outcome
admit closed total e canonical =
    if mem canonical (identities e)
    then record { owner = e; count = total; answer = true }
    else if leb global_target_limit total || leb space_target_limit (length (identities e))
    then record { owner = wake closed (request_full e); count = total; answer = false }
    else record { owner = e; count = total + 1; answer = true }

-- the deferred entry leaves, if there is one, and the revision tells it
abbrev pub undefer : String → Owner → Owner
undefer canonical e =
    if mem canonical (keys e.deferred)
    then record e {
      deferred = delete canonical e.deferred;
      debounce_revision = e.debounce_revision + 1;
    }
    else e

abbrev pub enqueue_admitted : Bool → String → Outcome → Outcome
enqueue_admitted closed canonical o =
    if o.answer
    then record o {
      owner =
          wake closed
            (undefer canonical (record o.owner { pending = insert canonical o.owner.pending }));
    }
    else o

-- enqueue, under the condition
unfoldable pub enqueue_section : Bool → ℕ → Owner → String → Outcome
enqueue_section closed total e canonical =
    if closed
    then record { owner = e; count = total; answer = false }
    else if mem canonical e.pending
    then record { owner = wake closed e; count = total; answer = false }
    else enqueue_admitted closed canonical (admit closed total e canonical)

abbrev pub enqueue_at : Binding → Scheduler → Owner → Option String → Result (Scheduler × Bool)
enqueue_at b s e none = ok (s, false)
enqueue_at b s e (some canonical) =
    let o = enqueue_section s.closed s.total e canonical in ok (commit b.space_id o s, o.answer)

-- enqueue; a scheduler that is closed while the path is being resolved answers False, as
-- `enqueue_section` does.
unfoldable pub enqueue : Paths → Binding → QualifiedPath → Scheduler → Result (Scheduler × Bool)
enqueue p b q s = do (e, canonical) ← canonical_entry p b q s; enqueue_at b s e canonical

abbrev pub deadline_of : Option ℕ → ℕ → ℕ
deadline_of none deadline = deadline
deadline_of (some d) deadline = max d deadline

abbrev pub debounce_admitted : Bool → String → ℕ → Outcome → Outcome
debounce_admitted closed canonical deadline o =
    if o.answer
    then record o {
      owner = wake closed (record o.owner {
        deferred =
            put canonical (deadline_of (get canonical o.owner.deferred) deadline) o.owner.deferred;
      });
    }
    else o

-- _debounce, under the condition; `open` says that the scheduler is not closed, and that the token
-- is the attached watcher's, which accepts. `revision` was read before the path was resolved.
unfoldable pub debounce_section : Bool → ℕ → ℕ → ℕ → Owner → String → Outcome
debounce_section accepts total revision deadline e canonical =
    if not accepts || is_some e.monitoring_error_type
    then record { owner = e; count = total; answer = false }
    else if not (mem canonical (keys e.deferred)) && not (revision == e.debounce_revision)
    then record { owner = wake false (request_full e); count = total; answer = false }
    else debounce_admitted false canonical deadline (admit false total e canonical)

-- the tests on the shared fields that `_debounce` makes
abbrev pub accepts : ℕ → Scheduler → Bool
accepts token s = not s.closed && same_token s.watcher_token token && s.watcher_accepting

abbrev pub is_due : Option ℕ → ℕ → Bool
is_due none deadline = false
is_due (some d) deadline = d == deadline

-- _debounce_failed, under the condition
unfoldable pub debounce_failed_section : Bool → ℕ → Owner → String → ℕ → Outcome
debounce_failed_section closed total e path deadline =
    let dropped = record e {
      deferred = delete path e.deferred;
      debounce_revision = e.debounce_revision + 1;
    } in
    if is_due (get path e.deferred) deadline
    then record {
      owner = wake closed (request_full dropped);
      count = total + length (identities dropped) - length (identities e);
      answer = false;
    }
    else record { owner = e; count = total; answer = false }

-- _deliver_debounced, under the condition; `open` says that the scheduler is not closed and the
-- token is the attached watcher's. The answer says that the path was moved to `pending`; the error
-- is the `SpaceError` for a path that resolves elsewhere now.
unfoldable pub deliver_section : Bool → ℕ → Owner → String → String → ℕ → Result Outcome
unfolding debounce_failed_section
deliver_section attached total e path canonical deadline =
    if not attached || not (is_due (get path e.deferred) deadline)
    then ok (record { owner = e; count = total; answer = false })
    else if not (str_eq canonical path)
    then raise unavailable_space
    else if is_some e.monitoring_error_type
    then ok (debounce_failed_section false total e path deadline)
    else ok (record {
      owner = wake false (record e {
        pending = insert canonical e.pending;
        deferred = delete canonical e.deferred;
        debounce_revision = e.debounce_revision + 1;
      });
      count = total;
      answer = true;
    })

-- the body of the loop in `_retire_watcher_work`, for one owner
unfoldable pub retire_section : ℕ → Owner → Outcome
retire_section total e =
    let dropped = record e { deferred = []; debounce_revision = e.debounce_revision + 1 } in
    if leb 1 (length e.deferred)
    then record {
      owner = request_full dropped;
      count = total + length (identities dropped) - length (identities e);
      answer = true;
    }
    else record { owner = e; count = total; answer = false }

-- A section for every owner in turn, as the loops over `self._owners` make it.
unfoldable pub each_owner :
    (ℕ → Owner → Outcome) → ℕ → List (SpaceId × Owner) → List (SpaceId × Owner) × ℕ
each_owner f total [] = ([], total)
each_owner f total ((sid, e) ∷ m) =
    let o = f total e in
    let (rest, count) = each_owner f o.count m in ((sid, o.owner) ∷ rest, count)

-- the loop of `_retire_watcher_work`
unfoldable pub retire_all : ℕ → List (SpaceId × Owner) → List (SpaceId × Owner) × ℕ
unfolding retire_section each_owner
retire_all = each_owner retire_section

-- request_full_sync, under the condition
unfoldable pub request_section : Bool → ℕ → Owner → Outcome
request_section closed total e =
    if closed
    then record { owner = e; count = total; answer = false }
    else record { owner = wake false (request_full e); count = total; answer = true }

-- retry, under the condition
unfoldable pub retry_section : Bool → ℕ → Owner → Outcome
retry_section closed total e =
    if closed || e.running || is_some e.continuation
    then record { owner = e; count = total; answer = false }
    else record { owner = wake closed e; count = total; answer = true }

-- cancel, under the condition
unfoldable pub cancel_section : ℕ → Owner → Outcome
cancel_section total e = record {
  owner = record e {
    cancel = true;
    paused = true;
    wake_pending = false;
    full_needed =
        leb 1 (length (identities e)) || is_some e.continuation || e.running || e.full_needed;
    pending = [];
    deferred = [];
    debounce_revision = e.debounce_revision + 1;
  };
  count = total - length (minus (identities e) e.inflight);
  answer = true;
}

-- the body of the loop in `begin_shutdown`, for one owner
unfoldable pub shutdown_section : ℕ → Owner → Outcome
shutdown_section total e = record {
  owner = record e {
    cancel = true;
    paused = true;
    full_needed =
        leb 1 (length (identities e)) || is_some e.continuation || e.running || e.full_needed;
    pending = [];
    deferred = [];
    debounce_revision = e.debounce_revision + 1;
  };
  count = total - length (minus (identities e) e.inflight);
  answer = true;
}

-- the loop of `begin_shutdown`
unfoldable pub shutdown_all : ℕ → List (SpaceId × Owner) → List (SpaceId × Owner) × ℕ
unfolding shutdown_section each_owner
shutdown_all = each_owner shutdown_section

-- the start of every owner with a full synchronization to do
unfoldable pub need_full : List (SpaceId × Owner) → List (SpaceId × Owner)
need_full [] = []
need_full ((sid, e) ∷ m) = (sid, record e { full_needed = true }) ∷ need_full m

abbrev pub launch : Bool → Scheduler → Scheduler
launch startup s = record s {
  owners = if startup then need_full s.owners else s.owners;
  started = true;
}

-- start
unfoldable pub start : Bool → Scheduler → Result Scheduler
unfolding need_full
start startup s =
    if s.closed
    then raise runtime_error
    else if s.started || not (leb 1 (length s.owners))
    then ok s
    else ok (launch startup s)

-- begin_shutdown
unfoldable pub begin_shutdown : Scheduler → Scheduler
unfolding shutdown_all
begin_shutdown s =
    let (owners, total) = shutdown_all s.total s.owners in
    if s.closed then s else record s { owners = owners; total = total; closed = true }

-- _release_inflight
abbrev pub released : Owner → Owner
released e = record e { inflight = [] }

abbrev pub release_count : ℕ → Owner → ℕ
release_count total e = total - length (minus e.inflight (union e.pending (keys e.deferred)))
