-- ===== src/Tests/Tandem.antt =====
-- The tandem index of Prototype on small lists.
use hkv.Base.{
  ℕ, zero, suc, ◌≡◌, refl, ◌≤◌, ◌==◌, if◌then◌else◌, pos, negsuc, true, some, [], ◌∷◌, arith, ok,
  stop, null_pointer, get_elem?, update, Option, none, leb,
}
use hkv.Base.Sort.{insert_by}
use hkv.Prototype.Nodes.{Vnode, Inode, max_key, fresh_vnode, to_int}
use hkv.Prototype.Pool.{Pool, unbuilt, init_vnodes, at}
use hkv.Prototype.Pool.Init.{init_vnodes-overrun}
use hkv.Prototype.ValueList.{ValueList, get_next, update_value, remove, lookup, insert}
use hkv.Prototype.ValueList.Chain.{Holds}
use hkv.Prototype.ValueList.Inserted.{insert-Holds}
use hkv.Prototype.ValueList.Found.{lookup-eq-value_in, insert-lookup_value}
use hkv.Prototype.ValueList.Changed.{update_value-Gives, remove-Gives}
use hkv.Prototype.ValueList.Lost.{update-lookup_value, remove-lookup_larger}
use hkv.Prototype.Skiplist
use hkv.Prototype.Skiplist.{Skiplist, generate_random_level, increase_covered_nodes}
use hkv.Prototype.Skiplist.Pivot.{IsIndex, lookup-pivot}
use hkv.Prototype.Tandem
use hkv.Prototype.Tandem.{TandemIndex}
use hkv.Prototype.Tandem.Reading.{IsTandem, lookup-eq-reading}
use hkv.Prototype.Tandem.Inserted.{insert-within}

-- Two entries behind the head, and one node left in the pool.
abbrev two_nodes : ℕ → Vnode
two_nodes a =
    if a == 100
    then record { id = pos 0; next = pos 1; value = 0; key = 0 }
    else if a == 200
    then record { id = pos 1; next = pos 2; value = 7; key = 5 }
    else if a == 300
    then record { id = pos 2; next = negsuc 0; value = 8; key = 9 }
    else fresh_vnode 3

abbrev two_entries : ValueList
two_entries = record {
  pool = record {
    vec = 100 ∷ 200 ∷ 300 ∷ 400 ∷ [];
    node_size = 100;
    num_nodes = 4;
    current_idx = 3;
    nodes = two_nodes;
  };
  head = 100;
}

two_entries-numbered :
    (i a : ℕ) → get_elem? two_entries.pool.vec i ≡ some a → (two_entries.pool.nodes a).id ≡ pos i
two_entries-numbered zero a h = ground (arith, h)
two_entries-numbered (suc zero) a h = ground (arith, h)
two_entries-numbered (suc (suc zero)) a h = ground (arith, h)
two_entries-numbered (suc (suc (suc zero))) a h = ground (arith, h)
two_entries-numbered (suc (suc (suc (suc i)))) a h = absurd (cc)

two_entries-Holds : Holds two_entries ((5, 7) ∷ (9, 8) ∷ [])
unfolding get_next
two_entries-Holds = record {
  nodes = 200 ∷ 300 ∷ [];
  pool = record { numbered = two_entries-numbered; filled = omega arith };
  chain = record {
    chain = (refl, (refl, refl));
    apart = ((omega arith, (omega arith, tt)), ((omega arith, tt), (tt, tt)));
    taken = (
      (0, omega arith, refl, refl),
      ((1, omega arith, refl, refl), ((2, omega arith, refl, refl), tt)),
    );
  };
  held = refl;
  head = refl;
}

-- An index with one range, from the first entry on.
abbrev one_range : ℕ → Inode
one_range a =
    if a == 10
    then record {
      id = pos 0;
      next = pos 2;
      min_key = 0;
      max_key = 0;
      down = pos 0;
      covered_nodes = pos 1;
    }
    else if a == 20
    then record {
      id = pos 1;
      next = negsuc 0;
      min_key = max_key;
      max_key = max_key;
      down = negsuc 0;
      covered_nodes = pos 0;
    }
    else record {
      id = pos 2;
      next = pos 1;
      min_key = 5;
      max_key = max_key;
      down = pos 1;
      covered_nodes = pos 2;
    }

abbrev one_index : Skiplist
one_index = record {
  pool = record {
    vec = 10 ∷ 20 ∷ 30 ∷ [];
    node_size = 10;
    num_nodes = 3;
    current_idx = 3;
    nodes = one_range;
  };
  header = λ i. 10;
  tail = λ i. 20;
  level = 1;
}

one_index-IsIndex : IsIndex one_index (30 ∷ [])
unfolding at
one_index-IsIndex = record {
  level = refl;
  real = omega arith;
  low = refl;
  high = refl;
  row = (refl, refl, refl);
  ranges = (omega arith, tt);
}

abbrev tandem : TandemIndex
tandem = record { index = one_index; values = two_entries }

tandem-IsTandem : IsTandem tandem (30 ∷ []) ((5, 7) ∷ (9, 8) ∷ [])
unfolding two_entries-Holds at
tandem-IsTandem = record {
  held = two_entries-Holds;
  rising = ((omega arith, tt), ((tt), tt));
  index = one_index-IsIndex;
  anchors = (
    record { start = 200; before = []; after = 300 ∷ []; down = refl; parts = refl; key = refl },
    tt,
  );
  first = refl;
}

insert-Holds_example :
    (l' : ValueList) × (insert 5 6 1 two_entries ≡ ok (true, l'))
    × Holds l' (insert_by (λ e. e.0) (6, 1) ((5, 7) ∷ (9, 8) ∷ []))
    × (l'.pool.current_idx ≡ 4)
    × (l'.pool.num_nodes ≡ 4)
insert-Holds_example =
    insert-Holds 5 6 1 two_entries ((5, 7) ∷ (9, 8) ∷ []) two_entries-Holds (omega arith)
      (omega arith)

insert-lookup_value_example :
    (l' : ValueList) × (insert 5 6 1 two_entries ≡ ok (true, l'))
    × (lookup 5 6 l' ≡ ok (to_int 1))
    × (lookup 5 9 l' ≡ lookup 5 9 two_entries)
insert-lookup_value_example =
    insert-lookup_value 5 6 1 9 two_entries ((5, 7) ∷ (9, 8) ∷ []) two_entries-Holds (omega arith)
      (omega arith) (omega arith, (omega arith, tt)) (omega arith)

lookup-eq-value_in_example : lookup 3 5 two_entries ≡ ok (to_int 7)
lookup-eq-value_in_example =
    lookup-eq-value_in 3 5 two_entries ((5, 7) ∷ (9, 8) ∷ []) two_entries-Holds (omega arith)

update_value-Gives_example :
    (l' : ValueList) × (update_value 4 5 3 two_entries ≡ ok (true, l'))
    × Holds l' ((5, 3) ∷ (9, 8) ∷ [])
update_value-Gives_example =
    update_value-Gives 4 5 3 two_entries ((5, 7) ∷ (9, 8) ∷ []) two_entries-Holds (omega arith)
      (omega arith)

remove-Gives_example : remove 4 10 two_entries ≡ stop null_pointer
remove-Gives_example =
    remove-Gives 4 10 two_entries ((5, 7) ∷ (9, 8) ∷ []) two_entries-Holds (omega arith)
      (omega arith)

-- What update and remove of the first entry leave.
abbrev first_as : ℕ → ℕ → ValueList
first_as key value = record two_entries {
  pool = record two_entries.pool {
    nodes = update two_nodes 200 (record { id = pos 1; next = pos 2; value = value; key = key });
  };
}

update_runs : update_value 4 5 3 two_entries ≡ ok (true, first_as 5 3)
unfolding update_value get_next
update_runs = refl

remove_runs : remove 4 5 two_entries ≡ ok (true, first_as max_key max_key)
unfolding remove get_next
remove_runs = refl

update-lookup_value_example :
    (lookup 4 5 (first_as 5 3) ≡ ok (to_int 3))
    × (lookup 4 9 (first_as 5 3) ≡ lookup 4 9 two_entries)
update-lookup_value_example =
    update-lookup_value 4 5 3 9 two_entries (first_as 5 3) ((5, 7) ∷ (9, 8) ∷ []) two_entries-Holds
      ((omega arith, tt), (tt, tt)) (omega arith) (omega arith) (omega arith) update_runs

remove-lookup_larger_example : lookup 4 9 (first_as max_key max_key) ≡ ok (negsuc 0)
remove-lookup_larger_example =
    remove-lookup_larger 4 5 9 two_entries (first_as max_key max_key) ((5, 7) ∷ (9, 8) ∷ [])
      two_entries-Holds (omega arith) (omega arith) (omega arith) (omega arith) remove_runs

-- Memory with room for 200,000 bytes from the address 4096 on.
abbrev small_memory : ℕ → Option ℕ
small_memory n = if leb n 200_000 then some 4096 else none

init_vnodes-overrun_example :
    (p : Pool Vnode) × (a : ℕ) × (init_vnodes true small_memory fresh_vnode
        (unbuilt two_nodes 32 10_000_000)
      ≡ (true, p))
    × (get_elem? p.vec 5000 ≡ some a)
    × (p.nodes a ≡ fresh_vnode 5000)
    × (164_096 ≤ a)
init_vnodes-overrun_example =
    init_vnodes-overrun small_memory two_nodes 4096 32 10_000_000 5000 refl (omega arith)
      (omega arith) (omega arith)

lookup-pivot_example : Skiplist.lookup 3 7 one_index ≡ ok (some 30)
lookup-pivot_example = lookup-pivot 3 7 one_index (30 ∷ []) one_index-IsIndex (omega arith)

lookup-eq-reading_example : Tandem.lookup 4 9 tandem ≡ ok 8
lookup-eq-reading_example =
    lookup-eq-reading 4 9 tandem (30 ∷ []) ((5, 7) ∷ (9, 8) ∷ []) tandem-IsTandem (omega arith)
      (omega arith)

insert-within_example :
    (t' : TandemIndex) × (Tandem.insert 5 1 (λ i. 0) 6 1 tandem ≡ ok (true, t'))
    × IsTandem t' (30 ∷ []) (insert_by (λ e. e.0) (6, 1) ((5, 7) ∷ (9, 8) ∷ []))
    × (Tandem.lookup 5 6 t' ≡ ok 1)
unfolding increase_covered_nodes
insert-within_example =
    insert-within 5 1 6 1 30 (λ i. 0) tandem (30 ∷ []) ((5, 7) ∷ (9, 8) ∷ []) tandem-IsTandem
      (omega arith, (omega arith, tt)) refl refl (omega arith) (omega arith) (omega arith)
