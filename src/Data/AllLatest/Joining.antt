-- ===== src/Data/AllLatest/Joining.antt =====
-- `AllLatest` on four channels, against the sequence of messages that it should give.
use cyberrt_on_rpi.Base.{
  ◌>>=◌, ◌+◌, ◌^◌, ◌<◌, ◌≡◌, true, Option, none, some, List, [], ◌∷◌, ◌++◌, length, arith, subst,
  sym, ap, ◌∙◌, length-append, append_assoc, append-nil,
}
use cyberrt_on_rpi.Data.CacheBuffer.{store}
use cyberrt_on_rpi.Data.CacheBuffer.Holds.{Holds, store-Holds, capacity-store}
use cyberrt_on_rpi.Data.ChannelBuffer.Fetching.{latest_lem}
use cyberrt_on_rpi.Data.AllLatest.{callback, join, fill_m0, latest_three}
use cyberrt_on_rpi.Data.AllLatest.Arrivals.{
  Arrival, on_m0, on_m1, on_m2, on_m3, newest, newest-append, Four, joined,
}

module _ {ℓ} {M0 M1 M2 M3 : Type ℓ} (null0 : M0) (null1 : M1) (null2 : M2) (null3 : M3) where
  -- `ChannelBuffer::Fill` on the buffer of the channel that the message is on.
  unfoldable pub arrive : Arrival M0 M1 M2 M3 → Four M0 M1 M2 M3 → Four M0 M1 M2 M3
  arrive (on_m0 m) s = fill_m0 (null0, (null1, null2, null3)) (latest_three null1 null2 null3) m s
  arrive (on_m1 m) s = record s { others = (store s.others.0 m, s.others.1, s.others.2) }
  arrive (on_m2 m) s = record s { others = (s.others.0, store s.others.1 m, s.others.2) }
  arrive (on_m3 m) s = record s { others = (s.others.0, s.others.1, store s.others.2 m) }

  unfoldable pub arrive_all : List (Arrival M0 M1 M2 M3) → Four M0 M1 M2 M3 → Four M0 M1 M2 M3
  arrive_all [] s = s
  arrive_all (e ∷ es) s = arrive_all es (arrive e s)

  -- What the buffers hold: the histories of the other channels, and the joined messages so far.
  pub record IsJoining (h1 : List M1) (h2 : List M2) (h3 : List M3)
      (hf : List (M0 × (M1 × M2 × M3))) (s : Four M0 M1 M2 M3) : Type ℓ where
    pub fused : s.buffer_m0.fused ≡ true
    pub holds1 : Holds null1 s.others.0 h1
    pub roomy1 : 1 < s.others.0.capacity
    pub holds2 : Holds null2 s.others.1 h2
    pub roomy2 : 1 < s.others.1.capacity
    pub holds3 : Holds null3 s.others.2 h3
    pub roomy3 : 1 < s.others.2.capacity
    pub holds : Holds (null0, (null1, null2, null3)) s.buffer_fusion hf

  latest_three_lem :
      (h1 : List M1) (h2 : List M2) (h3 : List M3) (hf : List (M0 × (M1 × M2 × M3)))
      (s : Four M0 M1 M2 M3)
      → IsJoining h1 h2 h3 hf s
      → latest_three null1 null2 null3 s.others ≡ (
          newest null1 h1 >>= λ m1.
          newest null2 h2 >>= λ m2. newest null3 h3 >>= λ m3. some (m1, m2, m3))
  unfolding latest_three newest
  latest_three_lem h1 h2 h3 hf s g =
      let e1 = latest_lem null1 s.others.0 h1 g.holds1 g.roomy1 in
      let e2 = latest_lem null2 s.others.1 h2 g.holds2 g.roomy2 in
      let e3 = latest_lem null3 s.others.2 h3 g.holds3 g.roomy3 in rw (e1, e2, e3)

  -- A message of the first channel meets the latest of the others.
  arrive_m0 :
      (m : M0) (s : Four M0 M1 M2 M3)
      → s.buffer_m0.fused ≡ true
      → arrive (on_m0 m) s
        ≡ join
            (null0, (null1, null2, null3))
            (latest_three null1 null2 null3)
            m
            (latest_three null1 null2 null3 s.others)
            s
  unfolding arrive fill_m0 callback
  arrive_m0 m s f = simp f

  abbrev IsJoined :
      List (Arrival M0 M1 M2 M3) → Four M0 M1 M2 M3 → List (M0 × (M1 × M2 × M3)) → Type ℓ
  IsJoined es s hf = Holds (null0, (null1, null2, null3)) (arrive_all es s).buffer_fusion hf

  m0_kept :
      (m : M0) (es : List (Arrival M0 M1 M2 M3)) (s : Four M0 M1 M2 M3)
      (l : List (M0 × (M1 × M2 × M3)))
      → s.buffer_m0.fused ≡ true
      → latest_three null1 null2 null3 s.others ≡ none
      → IsJoined es s l
      → IsJoined (on_m0 m ∷ es) s l
  unfolding arrive_all join
  m0_kept m es s l f e keep =
      subst (λ s'. IsJoined es s' l)
        (sym (
          arrive_m0 m s f
          ∙ ap (λ o. join (null0, (null1, null2, null3)) (latest_three null1 null2 null3) m o s) e))
        keep

  -- A message of the first channel, by what the other channels have.
  m0_step :
      (m : M0) (es : List (Arrival M0 M1 M2 M3)) (s : Four M0 M1 M2 M3)
      (hf : List (M0 × (M1 × M2 × M3))) (o1 : Option M1) (o2 : Option M2) (o3 : Option M3)
      → s.buffer_m0.fused ≡ true
      → latest_three null1 null2 null3 s.others
        ≡ (o1 >>= λ m1. o2 >>= λ m2. o3 >>= λ m3. some (m1, m2, m3))
      → IsJoined es s (hf ++ joined es o1 o2 o3)
      → ((r : M1 × M2 × M3)
          → IsJoined es
              (record s { buffer_fusion = store s.buffer_fusion (m, r) })
              ((hf ++ ((m, r) ∷ [])) ++ joined es o1 o2 o3))
      → IsJoined (on_m0 m ∷ es) s (hf ++ joined (on_m0 m ∷ es) o1 o2 o3)
  unfolding joined arrive_all join
  m0_step m es s hf none o2 o3 f e keep more = m0_kept m es s (hf ++ joined es none o2 o3) f e keep
  m0_step m es s hf (some m1) none o3 f e keep more =
      m0_kept m es s (hf ++ joined es (some m1) none o3) f e keep
  m0_step m es s hf (some m1) (some m2) none f e keep more =
      m0_kept m es s (hf ++ joined es (some m1) (some m2) none) f e keep
  m0_step m es s hf (some m1) (some m2) (some m3) f e keep more =
      let r : M1 × M2 × M3 = (m1, m2, m3) in
      subst (λ s'. IsJoined es s' (hf ++ (m, r) ∷ joined es (some m1) (some m2) (some m3)))
        (sym (
          arrive_m0 m s f
          ∙ ap (λ o. join (null0, (null1, null2, null3)) (latest_three null1 null2 null3) m o s) e))
        (subst (λ l. IsJoined es (record s { buffer_fusion = store s.buffer_fusion (m, r) }) l)
          (append_assoc hf ((m, r) ∷ []) (joined es (some m1) (some m2) (some m3))) (more r))

  joining1 :
      (m : M1) (h1 : List M1) (h2 : List M2) (h3 : List M3) (hf : List (M0 × (M1 × M2 × M3)))
      (s : Four M0 M1 M2 M3)
      → IsJoining h1 h2 h3 hf s
      → length h1 + 1 < 2 ^ 63
      → IsJoining
          (h1 ++ (m ∷ []))
          h2
          h3
          hf
          (record s { others = (store s.others.0 m, s.others.1, s.others.2) })
  joining1 m h1 h2 h3 hf s g few = record {
    fused = g.fused;
    holds1 = store-Holds null1 s.others.0 h1 m g.holds1 few;
    roomy1 = rw capacity-store g.roomy1;
    holds2 = g.holds2;
    roomy2 = g.roomy2;
    holds3 = g.holds3;
    roomy3 = g.roomy3;
    holds = g.holds;
  }

  joining2 :
      (m : M2) (h1 : List M1) (h2 : List M2) (h3 : List M3) (hf : List (M0 × (M1 × M2 × M3)))
      (s : Four M0 M1 M2 M3)
      → IsJoining h1 h2 h3 hf s
      → length h2 + 1 < 2 ^ 63
      → IsJoining h1
          (h2 ++ (m ∷ []))
          h3
          hf
          (record s { others = (s.others.0, store s.others.1 m, s.others.2) })
  joining2 m h1 h2 h3 hf s g few = record {
    fused = g.fused;
    holds1 = g.holds1;
    roomy1 = g.roomy1;
    holds2 = store-Holds null2 s.others.1 h2 m g.holds2 few;
    roomy2 = rw capacity-store g.roomy2;
    holds3 = g.holds3;
    roomy3 = g.roomy3;
    holds = g.holds;
  }

  joining3 :
      (m : M3) (h1 : List M1) (h2 : List M2) (h3 : List M3) (hf : List (M0 × (M1 × M2 × M3)))
      (s : Four M0 M1 M2 M3)
      → IsJoining h1 h2 h3 hf s
      → length h3 + 1 < 2 ^ 63
      → IsJoining h1 h2
          (h3 ++ (m ∷ []))
          hf
          (record s { others = (s.others.0, s.others.1, store s.others.2 m) })
  joining3 m h1 h2 h3 hf s g few = record {
    fused = g.fused;
    holds1 = g.holds1;
    roomy1 = g.roomy1;
    holds2 = g.holds2;
    roomy2 = g.roomy2;
    holds3 = store-Holds null3 s.others.2 h3 m g.holds3 few;
    roomy3 = rw capacity-store g.roomy3;
    holds = g.holds;
  }

  -- Four channels that hold their messages so far: after any sequence of arrivals the fusion buffer holds
  -- what it held, followed by one joined message for each message of the first channel that came when
  -- every other channel had had one, with the last message of each, in order. (Each channel gets fewer
  -- than 2^63 messages, and the queue sizes are not 0.)
  pub joins :
      (es : List (Arrival M0 M1 M2 M3)) (h1 : List M1) (h2 : List M2) (h3 : List M3)
      (hf : List (M0 × (M1 × M2 × M3))) (s : Four M0 M1 M2 M3)
      → IsJoining h1 h2 h3 hf s
      → length h1 + length es < 2 ^ 63
      → length h2 + length es < 2 ^ 63
      → length h3 + length es < 2 ^ 63
      → length hf + length es < 2 ^ 63
      → Holds
          (null0, (null1, null2, null3))
          (arrive_all es s).buffer_fusion
          (hf ++ joined es (newest null1 h1) (newest null2 h2) (newest null3 h3))
  unfolding joined arrive_all arrive
  joins [] h1 h2 h3 hf s g f1 f2 f3 ff = rw append-nil g.holds
  joins (on_m0 m ∷ es) h1 h2 h3 hf s g f1 f2 f3 ff =
      m0_step m es s hf (newest null1 h1) (newest null2 h2) (newest null3 h3) g.fused
        (latest_three_lem h1 h2 h3 hf s g)
        (joins es h1 h2 h3 hf s g (omega arith) (omega arith) (omega arith) (omega arith))
        (λ r.
          joins es h1 h2 h3 (hf ++ ((m, r) ∷ []))
            (record s { buffer_fusion = store s.buffer_fusion (m, r) })
            (record {
              fused = g.fused;
              holds1 = g.holds1;
              roomy1 = g.roomy1;
              holds2 = g.holds2;
              roomy2 = g.roomy2;
              holds3 = g.holds3;
              roomy3 = g.roomy3;
              holds = store-Holds _ s.buffer_fusion hf (m, r) g.holds (omega arith);
            })
            (omega arith) (omega arith) (omega arith)
            (omega (arith, length-append hf ((m, r) ∷ []))))
  joins (on_m1 m ∷ es) h1 h2 h3 hf s g f1 f2 f3 ff =
      let s' = record s { others = (store s.others.0 m, s.others.1, s.others.2) } in
      subst
        (λ o.
          Holds (null0, (null1, null2, null3)) (arrive_all es s').buffer_fusion
            (hf ++ joined es o (newest null2 h2) (newest null3 h3)))
        (newest-append null1 h1 m)
        (joins es (h1 ++ (m ∷ [])) h2 h3 hf s' (joining1 m h1 h2 h3 hf s g (omega arith))
          (omega (arith, length-append h1 (m ∷ []))) (omega arith) (omega arith) (omega arith))
  joins (on_m2 m ∷ es) h1 h2 h3 hf s g f1 f2 f3 ff =
      let s' = record s { others = (s.others.0, store s.others.1 m, s.others.2) } in
      subst
        (λ o.
          Holds (null0, (null1, null2, null3)) (arrive_all es s').buffer_fusion
            (hf ++ joined es (newest null1 h1) o (newest null3 h3)))
        (newest-append null2 h2 m)
        (joins es h1 (h2 ++ (m ∷ [])) h3 hf s' (joining2 m h1 h2 h3 hf s g (omega arith))
          (omega arith) (omega (arith, length-append h2 (m ∷ []))) (omega arith) (omega arith))
  joins (on_m3 m ∷ es) h1 h2 h3 hf s g f1 f2 f3 ff =
      let s' = record s { others = (s.others.0, s.others.1, store s.others.2 m) } in
      subst
        (λ o.
          Holds (null0, (null1, null2, null3)) (arrive_all es s').buffer_fusion
            (hf ++ joined es (newest null1 h1) (newest null2 h2) o))
        (newest-append null3 h3 m)
        (joins es h1 h2 (h3 ++ (m ∷ [])) hf s' (joining3 m h1 h2 h3 hf s g (omega arith))
          (omega arith) (omega arith) (omega (arith, length-append h3 (m ∷ []))) (omega arith))
