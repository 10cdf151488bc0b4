-- ===== src/MiniLock/Word.antt =====
-- mini_lock/src/lib.rs: the word of the lock, the address of the newest waiting node with
-- LOCKED_BIT in its lowest bit. Nodes have even addresses.
use colock.Base.{ℕ, ◌+◌, ◌*◌, ◌/◌, ◌-◌, ◌%◌, Bool, ◌==◌}

abbrev pub locked_bit : ℕ
locked_bit = 1

-- `self & PTR_MASK`
abbrev pub get_ptr : ℕ → ℕ
get_ptr word = word / 2 * 2

-- `self & LOCKED_BIT == LOCKED_BIT`
abbrev pub get_flag : ℕ → Bool
get_flag word = word % 2 == 1

-- `word | LOCKED_BIT`
abbrev pub set_flag : ℕ → ℕ
set_flag word = word / 2 * 2 + 1

-- `as_usize_ptr` of the node of thread `i`: a model of its address, even and not null.
abbrev pub address : ℕ → ℕ
address i = (i + 1) * 2

abbrev pub owner_of : ℕ → ℕ
owner_of word = word / 2 - 1
