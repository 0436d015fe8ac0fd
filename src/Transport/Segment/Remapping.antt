-- ===== src/Transport/Segment/Remapping.antt =====
-- A reader whose segment is remapped while it asks for a block.
use cyberrt_on_rpi.Base.{
  ℕ, zero, suc, ◌+◌, ◌≤◌, ◌<◌, ◌≡◌, refl, Bool, true, false, Option, none, some, leb, arith, ◌∙◌,
  ap,
}
use cyberrt_on_rpi.Transport.ShmConf.{ShmConf, update_conf}
use cyberrt_on_rpi.Transport.Segment.{
  Process, at_pointer, shared, reset, open_only, fill_addrs, attach, attach_failed, attach_found,
  open_got,
}
use cyberrt_on_rpi.Transport.Segment.Machine.{Shm, Got, got, invalid, exists, failed}
use cyberrt_on_rpi.Transport.Segment.Blocks.{
  remap, remap_if_needed, initialised, acquire_block_to_read, read_ready, read_open, acquired,
}

module _ (state_bytes block_bytes : ℕ) (conf : ShmConf) (base : ℕ) where
  fill_addrs_above :
      (n i j : ℕ) (addrs : ℕ → Option ℕ)
      → i + n ≤ j
      → fill_addrs state_bytes block_bytes conf base i n addrs j ≡ addrs j
  unfolding fill_addrs
  fill_addrs_above zero i j addrs h = refl
  fill_addrs_above (suc n) i j addrs h = fill_addrs_above n (i + 1) j _ (omega arith) ∙ ground arith

module _ {W : Type 0} (m : Shm W) (state_bytes block_bytes : ℕ) where
  attach_found_above :
      (o : Option ℕ) (s : Process W) (j : ℕ)
      → s.segment.block_buf_addrs j ≡ none
      → let s' = (attach_found m state_bytes block_bytes o s).0 in
        s'.segment.conf.block_num ≤ j → s'.segment.block_buf_addrs j ≡ none
  unfolding attach_found attach_failed attach at_pointer
  attach_found_above (some a) s j h above =
      let conf = update_conf (s.memory a).ceiling_msg_size in
      fill_addrs_above state_bytes block_bytes conf a conf.block_num 0 j s.segment.block_buf_addrs
        (omega (arith, above))
      ∙ h
  attach_found_above none s j h above = h

  open_got_above :
      (g : Got) (s : Process W) (j : ℕ)
      → s.segment.block_buf_addrs j ≡ none
      → let s' = (open_got m state_bytes block_bytes g s).0 in
        s'.segment.conf.block_num ≤ j → s'.segment.block_buf_addrs j ≡ none
  unfolding open_got
  open_got_above (got shmid) s j h above =
      attach_found_above (m.shmat shmid s.os).1 (record s { os = (m.shmat shmid s.os).0 }) j h above
  open_got_above invalid s j h above = h
  open_got_above exists s j h above = h
  open_got_above failed s j h above = h

  remap_above :
      (s : Process W) (j : ℕ)
      → (remap m state_bytes block_bytes s).0.segment.conf.block_num ≤ j
      → (remap m state_bytes block_bytes s).0.segment.block_buf_addrs j ≡ none
  unfolding remap open_only reset
  remap_above s j above =
      let s' = reset m (record s { segment = record s.segment { init = false } }) in
      open_got_above (m.shmget s.segment.id 0 false s'.os).1
        (record s' { os = (m.shmget s.segment.id 0 false s'.os).0 }) j refl above

  read_open_lem :
      (lock : ℕ → ℕ × Bool) (index : ℕ) (r : Process W × Bool)
      → r.1 ≡ true
      → (lock ((shared r.0).lock_nums index)).1 ≡ true
      → (read_open m state_bytes block_bytes lock index r).1
        ≡ acquired index (r.0.segment.block_buf_addrs index)
  unfolding read_open
  read_open_lem lock index (s, false) ok locks = ground arith
  read_open_lem lock index (s, true) ok locks = simp locks refl

  -- The index is compared with the number of blocks before the segment is remapped. Where the new memory
  -- has fewer, the reader gets a block that is none, with no buffer (a null pointer): `lock` reads what
  -- stands there as a lock's number.
  pub read_past_the_end :
      (lock : ℕ → ℕ × Bool) (index : ℕ) (s : Process W)
      → s.segment.init ≡ true
      → (shared s).need_remap ≡ true
      → index < s.segment.conf.block_num
      → (remap m state_bytes block_bytes s).1 ≡ true
      → (remap m state_bytes block_bytes s).0.segment.conf.block_num ≤ index
      → (lock ((shared (remap m state_bytes block_bytes s).0).lock_nums index)).1 ≡ true
      → (acquire_block_to_read m state_bytes block_bytes lock index s).1 ≡ acquired index none
  unfolding acquire_block_to_read read_ready initialised remap_if_needed
  read_past_the_end lock index s opened needs below ok fewer locks =
      let inside : leb s.segment.conf.block_num index ≡ false = ground arith in
      simp (opened, inside, needs)
        (read_open_lem lock index (remap m state_bytes block_bytes s) ok locks
          ∙ ap (acquired index) (remap_above s index fewer))
