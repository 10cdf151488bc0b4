-- ===== src/Mutex/Tests.antt =====
-- Unit tests of colock/src/mutex/raw_mutex.rs and mod.rs that one thread runs, over any raw lock.
-- Each gives what the test asserts on.
use colock.Base.{ℕ, ◌+◌, ◌≡◌, refl, Bool, true, false, Option, none, some}
use colock.Mutex.Raw.{RawLock, RawLaws}
use colock.Mutex.Guard.{
  Mutex, by_ref, by_arc, drop_handle, new, lock, drop_guard, deref, deref_mut, get_mut, into_inner,
}

infixl 5 ◌>>=◌
abbrev ◌>>=◌ : {A B : Type 0} → Option A → (A → Option B) → Option B
none >>= k = none
some a >>= k = k a

module _ {S : Type 0} (raw : RawLock S) where
  -- The two attempts to lock, the first while the lock is held.
  unfoldable pub lock_timeout : (first second : ℕ) → Option (Bool × Bool)
  lock_timeout first second = do
    s ← raw.lock raw.new
    (did_lock, s') ← raw.try_lock_for first s
    s'' ← raw.unlock s'
    (did_lock', s3) ← raw.try_lock_for second s''
    some (did_lock, did_lock')

  -- Is the mutex locked after `lock_async`, and after `unlock`?
  unfoldable pub async_lock : Option (Bool × Bool)
  async_lock = do
    s ← raw.lock_async raw.new
    s' ← raw.unlock s
    some (raw.is_locked s, raw.is_locked s')

  module _ {T : Type 0} where
    -- What the second guard sees of what was written through the first.
    unfoldable pub test_mutex_unsized : (T → T) → T → Option T
    test_mutex_unsized edit value = do
      (b, m) ← lock raw by_ref (new raw value)
      m' ← drop_guard raw b (deref_mut raw (edit (deref raw m)) m)
      (comp, m'') ← lock raw by_ref m'
      some (deref raw m'')

    unfoldable pub test_get_mut : T → T → T
    test_get_mut value other = into_inner raw (get_mut raw other (new raw value))

    unfoldable pub test_into_inner : T → T
    test_into_inner value = into_inner raw (new raw value)

  -- `*self.i.lock() += 1`, when the panic drops `_u`, and then the clone of the `Arc` that it has.
  unfoldable pub drop_unwinder : Mutex S ℕ → Option (Mutex S ℕ)
  drop_unwinder m = do
    (g, m') ← lock raw by_ref m
    m'' ← drop_guard raw g (deref_mut raw (deref raw m' + 1) m')
    some (drop_handle raw by_arc m'')

  -- What `*lock` is, and the strong count in the end.
  unfoldable pub test_mutex_arc_access_in_unwind : Option (ℕ × ℕ)
  test_mutex_arc_access_in_unwind = do
    let arc = new raw 1
    m ← drop_unwinder (record arc { strong = arc.strong + 1 })
    (g, m') ← lock raw by_ref m
    some (deref raw m', m'.strong)

  module _ (IsAlone : S → Type 0) (laws : RawLaws raw IsAlone) where
    -- The tests on locking pass over any raw lock that keeps the laws.
    lock_timeout_passes : (first second : ℕ) → lock_timeout first second ≡ some (false, true)
    unfolding lock_timeout
    lock_timeout_passes first second =
        let (s, e, al, lk) = laws.lock_free raw.new laws.new_free.0 laws.new_free.1 in
        let (s', e', al', lk') = laws.for_any first s al in
        let (s'', e'', al'', lk'') = laws.unlock_held s' al' lk' in
        let (s3, e3, al3, lk3) = laws.for_any second s'' al'' in rw (e, e', e'', e3, lk, lk'') refl

    test_mutex_unsized_passes :
        {T : Type 0} (edit : T → T) (value : T) → test_mutex_unsized edit value ≡ some (edit value)
    unfolding test_mutex_unsized lock drop_guard
    test_mutex_unsized_passes edit value =
        let (s, e, al, lk) = laws.lock_free raw.new laws.new_free.0 laws.new_free.1 in
        let (s', e', al', lk') = laws.unlock_held s al lk in
        let (s'', e'', al'', lk'') = laws.lock_free s' al' lk' in rw (e, e', e'') refl

    async_lock_passes : async_lock ≡ some (true, false)
    unfolding async_lock
    async_lock_passes =
        let (s, e, al, lk) = laws.async_free raw.new laws.new_free.0 laws.new_free.1 in
        let (s', e', al', lk') = laws.unlock_held s al lk in rw (e, e', lk, lk') refl

    arc_access_passes : test_mutex_arc_access_in_unwind ≡ some (2, 1)
    unfolding test_mutex_arc_access_in_unwind drop_unwinder lock drop_guard
    arc_access_passes =
        let (s, e, al, lk) = laws.lock_free raw.new laws.new_free.0 laws.new_free.1 in
        let (s', e', al', lk') = laws.unlock_held s al lk in
        let (s'', e'', al'', lk'') = laws.lock_free s' al' lk' in rw (e, e', e'') refl

  -- The tests on `get_mut` and `into_inner` pass.
  get_mut_passes :
      {T : Type 0} (value other : T)
      → (test_get_mut value other ≡ other) × (test_into_inner value ≡ value)
  unfolding test_get_mut test_into_inner
  get_mut_passes value other = (refl, refl)
