-- ===== src/Prototype/Nodes.antt =====
-- Prototype/include/node.h and common.h: the nodes of the two lists.
use hkv.Base.{ℕ, ◌^◌, ◌-◌, ◌%◌, ℤ, pos, negsuc, Bool, true, false, ltb, ◌==◌, if◌then◌else◌}

-- std::numeric_limits<Key_t>::max(), which is -1 in Key_t and in Val_t.
abbrev pub max_key : ℕ
max_key = 2 ^ 64 - 1

-- The conversions from uint64_t and uint32_t to int, and from int to size_t.
unfoldable pub int_of_bits : ℕ → ℤ
int_of_bits n = if ltb n (2 ^ 31) then pos n else negsuc (2 ^ 32 - 1 - n)

unfoldable pub to_int : ℕ → ℤ
unfolding int_of_bits
to_int n = int_of_bits (n % 2 ^ 32)

unfoldable pub to_size : ℤ → ℕ
to_size (pos n) = n
to_size (negsuc n) = 2 ^ 64 - 1 - n

-- Vnode
pub record Vnode : Type 0 where
  pub id : ℤ
  pub next : ℤ
  pub value : ℕ
  pub key : ℕ

-- Inode
pub record Inode : Type 0 where
  pub id : ℤ
  pub next : ℤ
  pub min_key : ℕ
  pub max_key : ℕ
  pub down : ℤ
  pub covered_nodes : ℤ

-- What the pools build: Vnode(i, 0, 0) and Inode(i, 0, 0).
abbrev pub fresh_vnode : ℕ → Vnode
fresh_vnode i = record { id = pos i; next = pos 0; value = 0; key = 0 }

abbrev pub fresh_inode : ℕ → Inode
fresh_inode i = record {
  id = pos i;
  next = pos 0;
  min_key = 0;
  max_key = 0;
  down = negsuc 0;
  covered_nodes = pos 0;
}

unfoldable pub update_vnode : ℕ → ℕ → Vnode → Bool × Vnode
update_vnode key value v = if v.key == key then (true, record v { value = value }) else (false, v)

unfoldable pub remove_vnode : ℕ → Vnode → Bool × Vnode
remove_vnode key v =
    if v.key == key then (true, record v { key = max_key; value = max_key }) else (false, v)

-- The value is cut down to an int.
unfoldable pub lookup_vnode : ℕ → Vnode → ℤ
unfolding to_int
lookup_vnode key v = if v.key == key then to_int v.value else negsuc 0

unfoldable pub get_key_pos_vnode : ℕ → Vnode → ℤ
get_key_pos_vnode key v = if v.key == key then v.id else negsuc 0
