-- ===== src/Transport/Segment/Opening.antt =====
-- How a segment is opened: every way ends with the whole memory at hand, or with the segment closed.
use cyberrt_on_rpi.Base.{
  ℕ, zero, suc, ◌+◌, ◌≤◌, ◌<◌, ◌≡◌, ◌⊎◌, inl, inr, refl, Bool, true, false, Option, none, some,
  ◌==◌, arith, ==_refl, ◌∙◌, Bool-cases,
}
use cyberrt_on_rpi.Transport.ShmConf.{ShmConf, update_conf, block_buf_offset}
use cyberrt_on_rpi.Transport.Segment.{
  Process, at_pointer, reset, remove, open_only, open_or_create, fill_addrs, attach, attach_failed,
  attach_found, open_got, construct, attach_fresh, after_create, create, create_got, Found, fresh,
  existing, missing,
}
use cyberrt_on_rpi.Transport.Segment.Machine.{
  Shm, Mode, read_only, write_only, address, Got, got, invalid, exists, failed,
  increase_reference_counts,
}
use cyberrt_on_rpi.Transport.Segment.Blocks.{init_as}

module _ (state_bytes block_bytes : ℕ) (conf : ShmConf) (base : ℕ) where
  fill_addrs_below :
      (n i j : ℕ) (addrs : ℕ → Option ℕ)
      → j < i
      → fill_addrs state_bytes block_bytes conf base i n addrs j ≡ addrs j
  unfolding fill_addrs
  fill_addrs_below zero i j addrs h = refl
  fill_addrs_below (suc n) i j addrs h = fill_addrs_below n (i + 1) j _ (omega arith) ∙ ground arith

  fill_addrs_lem :
      (n i j : ℕ) (addrs : ℕ → Option ℕ)
      → i ≤ j
      → j < i + n
      → fill_addrs state_bytes block_bytes conf base i n addrs j
        ≡ some (base + block_buf_offset state_bytes block_bytes conf j)
  unfolding fill_addrs
  fill_addrs_lem zero i j addrs lo hi = absurd (omega arith)
  fill_addrs_lem (suc n) i j addrs lo hi = elim (Bool-cases (j == i)) [
    | inl here ↦
        let e : j ≡ i = ground arith in
        fill_addrs_below n (i + 1) j _ (omega arith) ∙ rw (here, e) refl
    | inr there ↦
        let further : i + 1 ≤ j = ground arith in fill_addrs_lem n (i + 1) j _ further (omega arith)
  ]

module _ {W : Type 0} (m : Shm W) (state_bytes block_bytes : ℕ) where
  -- The segment is open on the memory at `a`: its pointers are set, its sizes are those of the state that
  -- stands there, and the address of every block's buffer is noted.
  pub record IsOpen (s : Process W) (a : ℕ) : Type 0 where
    pub init_lem : s.segment.init ≡ true
    pub state_lem : s.segment.state ≡ address a
    pub blocks_lem : s.segment.blocks ≡ address a
    pub managed_lem : s.segment.managed_shm ≡ address a
    pub conf_lem : s.segment.conf ≡ update_conf (s.memory a).ceiling_msg_size
    pub addrs_lem :
        (i : ℕ)
        → i < s.segment.conf.block_num
        → s.segment.block_buf_addrs i
          ≡ some (a + block_buf_offset state_bytes block_bytes s.segment.conf i)

  -- A result of opening: it tells whether the segment is open now.
  unfoldable pub Tells : Process W × Bool → Type 0
  Tells (s, ok) = ((ok ≡ true) × ((a : ℕ) × IsOpen s a)) ⊎ ((ok ≡ false) × (s.segment.init ≡ false))

  pub attach-IsOpen : (a : ℕ) (s : Process W) → IsOpen (attach m state_bytes block_bytes a s) a
  unfolding attach at_pointer increase_reference_counts
  attach-IsOpen a s = record {
    init_lem = refl;
    state_lem = refl;
    blocks_lem = refl;
    managed_lem = refl;
    conf_lem = rw (==_refl a) refl;
    addrs_lem = λ i h.
        let conf = update_conf (s.memory a).ceiling_msg_size in
        fill_addrs_lem state_bytes block_bytes conf a conf.block_num 0 i s.segment.block_buf_addrs
          (omega arith) (omega (arith, h));
  }

  attach_found-Tells :
      (o : Option ℕ) (s : Process W)
      → s.segment.init ≡ false
      → Tells (attach_found m state_bytes block_bytes o s)
  unfolding Tells attach_found attach_failed
  attach_found-Tells (some a) s h = inl (refl, (a, attach-IsOpen a s))
  attach_found-Tells none s h = inr (refl, h)

  open_got-Tells :
      (g : Got) (s : Process W)
      → s.segment.init ≡ false
      → Tells (open_got m state_bytes block_bytes g s)
  unfolding Tells open_got
  open_got-Tells (got shmid) s h = attach_found-Tells _ _ h
  open_got-Tells invalid s h = inr (refl, h)
  open_got-Tells exists s h = inr (refl, h)
  open_got-Tells failed s h = inr (refl, h)

  pub open_only-Tells :
      (s : Process W) → s.segment.init ≡ false → Tells (open_only m state_bytes block_bytes s)
  unfolding open_only
  open_only-Tells s h = simp h (open_got-Tells _ _ h)

  init-create_got :
      (g : Got) (again : Process W → Process W × Found) (s : Process W)
      → ((s : Process W) → (again s).0.segment.init ≡ s.segment.init)
      → (create_got m g again s).0.segment.init ≡ s.segment.init
  unfolding create_got reset remove
  init-create_got (got shmid) again s h = refl
  init-create_got invalid again s h = h _
  init-create_got exists again s h = refl
  init-create_got failed again s h = refl

  init-create : (n : ℕ) (s : Process W) → (create m n s).0.segment.init ≡ s.segment.init
  unfolding create
  init-create zero s = refl
  init-create (suc n) s = init-create_got _ _ _ (init-create n)

  attach_fresh-Tells :
      (shmid : ℕ) (o : Option ℕ) (s : Process W)
      → s.segment.init ≡ false
      → Tells (attach_fresh m state_bytes block_bytes shmid o s)
  unfolding Tells attach_fresh attach_failed
  attach_fresh-Tells shmid (some a) s h =
      inl (refl, (a, attach-IsOpen a (construct m state_bytes block_bytes a s)))
  attach_fresh-Tells shmid none s h = inr (refl, h)

  after_create-Tells :
      (r : Process W × Found)
      → r.0.segment.init ≡ false
      → Tells (after_create m state_bytes block_bytes r)
  unfolding Tells after_create
  after_create-Tells (s, fresh shmid) h = attach_fresh-Tells shmid _ _ h
  after_create-Tells (s, existing) h = open_only-Tells s h
  after_create-Tells (s, missing) h = inr (refl, h)

  pub open_or_create-Tells :
      (s : Process W) → s.segment.init ≡ false → Tells (open_or_create m state_bytes block_bytes s)
  unfolding open_or_create
  open_or_create-Tells s h = simp h (after_create-Tells (create m 2 s) (init-create 2 s ∙ h))

  pub init_as-Tells :
      (mode : Mode) (s : Process W)
      → s.segment.init ≡ false
      → Tells (init_as m state_bytes block_bytes mode s)
  unfolding init_as
  init_as-Tells read_only s h = open_only-Tells s h
  init_as-Tells write_only s h = open_or_create-Tells s h
