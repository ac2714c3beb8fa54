-- ===== src/Agent/HostFns/Storage.antt =====
-- `storage_put` and then `storage_get` of crates/agent-runtime/src/host_fns.rs.
use craftec_core.Agent.State.{
  HostState, Host, with_store, fill_buffer, return, share, share_or_fail, if_permitted, with_bytes,
  with_text, fail,
}
use craftec_core.Agent.HostFns.{put_in, get_from, storage_put, storage_get}
use craftec_core.Agent.Permissions.{storage_read, storage_write, denied, has}
use craftec_core.Agent.Store.{IsStore}
use craftec_core.Agent.Words.{as_i32, slice_at, is_utf8}
use craftec_core.Settlement.Accounts.{ℤ, pos}
use craftec_core.Prelude.{
  ℕ, ◌≤◌, min, if◌then◌else◌, true, none, some, and_then, List, take, drop, length, length-take,
  length-append, length-drop, take_at-append, take_of_length-le, Byte, arith, ◌≡◌, refl, ap, ◌∙◌,
}

as_i32_small : (n : ℕ) → n ≤ 2147483647 → as_i32 n ≡ pos n
as_i32_small n h = ground arith

module _ {Db Store : Type 0} where
  -- What is shared, in a buffer that is not too large.
  share_lem :
      (bytes : List Byte) (s : HostState Db Store)
      → length s.shared_buffer ≤ 2147483647
      → share bytes s
        ≡ some (
          fill_buffer (min (length bytes) (length s.shared_buffer)) bytes s,
          some (pos (min (length bytes) (length s.shared_buffer))),
        )
  share_lem bytes s h =
      ap (λ n. return (fill_buffer (min (length bytes) (length s.shared_buffer)) bytes s) n)
        (as_i32_small (min (length bytes) (length s.shared_buffer)) (omega arith))

  shared_part :
      (n : ℕ) (bytes : List Byte) (s : HostState Db Store)
      → n ≤ length bytes
      → take n (fill_buffer n bytes s).shared_buffer ≡ take n bytes
  shared_part n bytes s h =
      take_at-append n (take n bytes) (drop n s.shared_buffer) (omega (arith, length-take n bytes))

  module _ (host : Host Db Store) (cid_of : List Byte → Store → List Byte)
      (lawful : IsStore host.ops cid_of) where
    storage_put_lem :
        (memory bytes : List Byte) (ptr len : ℤ) (s : HostState Db Store) (store : Store)
        → has s.permissions storage_write ≡ true
        → s.store ≡ some store
        → length s.shared_buffer ≤ 2147483647
        → slice_at memory ptr len ≡ some bytes
        → storage_put host (some memory) ptr len s
          ≡ share (cid_of bytes store) (with_store (host.ops.put bytes store).0 s)
    storage_put_lem memory bytes ptr len s store may here small points =
        ap
          (λ b.
            if_permitted (if b then none else some (denied storage_write)) s
              (with_bytes (some memory) ptr len s (λ bytes. put_in host s.store bytes s)))
          may
        ∙ ap (λ o. and_then o (λ bytes. put_in host s.store bytes s)) points
        ∙ ap (λ o. put_in host o bytes s) here
        ∙ ap (λ o. share_or_fail o (with_store (host.ops.put bytes store).0 s))
            (lawful.stored bytes store)

    storage_get_lem :
        (memory cid bytes : List Byte) (ptr len : ℤ) (s : HostState Db Store) (store : Store)
        → has s.permissions storage_read ≡ true
        → s.store ≡ some store
        → slice_at memory ptr len ≡ some cid
        → is_utf8 cid ≡ true
        → host.ops.get cid store ≡ some bytes
        → storage_get host (some memory) ptr len s ≡ share bytes s
    storage_get_lem memory cid bytes ptr len s store may here points text found =
        ap
          (λ b.
            if_permitted (if b then none else some (denied storage_read)) s
              (with_text (some memory) ptr len s (λ cid. get_from host s.store cid s)))
          may
        ∙ ap (λ o. and_then o (λ b. if is_utf8 b then get_from host s.store b s else fail s)) points
        ∙ ap (λ b. if b then get_from host s.store cid s else fail s) text
        ∙ ap (λ o. get_from host o cid s) here
        ∙ ap (λ o. share_or_fail o s) found

    -- With both permissions, a store that keeps what is put into it, and a shared buffer that takes a
    -- CID and is smaller than 2 GiB: `storage_put` of bytes in the memory of the guest returns the
    -- length of their CID and puts it at the start of the buffer. `storage_get` of that CID, from any
    -- place in a memory, then puts as many of the bytes at the start of the buffer as it takes, and
    -- returns how many.
    pub storage_get-storage_put :
        (memory bytes : List Byte) (ptr len : ℤ) (memory' : List Byte) (cid_ptr cid_len : ℤ)
        (s : HostState Db Store) (store : Store)
        → has s.permissions storage_write ≡ true
        → has s.permissions storage_read ≡ true
        → s.store ≡ some store
        → length s.shared_buffer ≤ 2147483647
        → length (cid_of bytes store) ≤ length s.shared_buffer
        → slice_at memory ptr len ≡ some bytes
        → slice_at memory' cid_ptr cid_len ≡ some (cid_of bytes store)
        → (t : HostState Db Store) × (u : HostState Db Store) × (n : ℕ) × (m : ℕ) × (storage_put
              host
              (some memory)
              ptr
              len
              s
            ≡ some (t, some (pos n)))
          × (n ≡ length (cid_of bytes store))
          × (take n t.shared_buffer ≡ cid_of bytes store)
          × (storage_get host (some memory') cid_ptr cid_len t ≡ some (u, some (pos m)))
          × (m ≡ min (length bytes) (length s.shared_buffer))
          × (take m u.shared_buffer ≡ take m bytes)
    storage_get-storage_put memory bytes ptr len memory' cid_ptr cid_len s store write read here
          small fits points found =
        let cid : List Byte = cid_of bytes store in
        let kept : HostState Db Store = with_store (host.ops.put bytes store).0 s in
        let n : ℕ = min (length cid) (length s.shared_buffer) in
        let t : HostState Db Store = fill_buffer n cid kept in
        let room : length t.shared_buffer ≡ length s.shared_buffer = omega (
          arith,
          length-append (take n cid) (drop n s.shared_buffer),
          length-take n cid,
          length-drop n s.shared_buffer,
        ) in
        let m : ℕ = min (length bytes) (length t.shared_buffer) in
        (
          t,
          fill_buffer m bytes t,
          n,
          m,
          storage_put_lem memory bytes ptr len s store write here small points
              ∙ share_lem cid kept small,
          omega arith,
          shared_part n cid kept (omega arith) ∙ take_of_length-le n cid (omega arith),
          storage_get_lem memory' cid bytes cid_ptr cid_len t (host.ops.put bytes store).0 read refl
                found (lawful.text bytes store) (lawful.found bytes store)
              ∙ share_lem bytes t (omega (arith, room)),
          omega (arith, room),
          shared_part m bytes t (omega arith),
        )
