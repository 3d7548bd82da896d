-- ===== src/Programs/Progress.antt =====
-- The way of a `main` of MessengerApp from one `recv_frame` to the next: that it ends, and the descriptors
-- meanwhile.
use lib_crypt_safe_messenger.Common.{
  ℕ, zero, suc, ◌<◌, List, [], ◌∷◌, ◌≡◌, refl, ap, ◌∙◌, Bool, true, false, ◌⊎◌, Bool-cases, inl,
  inr, Bytes, length, arith,
}
use lib_crypt_safe_messenger.Common.Proc.{
  Proc, Machine, Outcome, returns, throws, faults, Exception,
}
use lib_crypt_safe_messenger.Frames.{SocketLib, send_frame, recv_frame}
use lib_crypt_safe_messenger.Frames.Stream.{IsReceiving}
use lib_crypt_safe_messenger.Frames.Progress.{recv_frame_takes, send_frame_keeps}
use lib_crypt_safe_messenger.Transport.{Net}
use lib_crypt_safe_messenger.Programs.{
  unless_over, Party, on_socket, after_send, send_all, after_recv, drive,
}

-- An exception ends the program, wherever it comes from, and so does undefined behaviour.
pub record IsEnding {World : Type 0} (p : Party World) : Type 0 where
  pub unread_ends : (e : Exception) (s : p.State) → p.is_over (p.unread e s) ≡ true
  pub uncaught_ends : (e : Exception) → p.is_over (p.uncaught e) ≡ true
  pub broken_ends : p.is_over p.broken ≡ true

module _ {Sockets World : Type 0} (send : Bytes → Proc Sockets Bool) (recv : Proc Sockets Bytes)
    (p : Party World) where
  abbrev pub SameDescriptors : Net Sockets → Net Sockets → Type 0
  SameDescriptors a b = (a.opened ≡ b.opened) × (a.startups ≡ b.startups)

  after_send-rule :
      (P : Net Sockets → Type 0) (r : Outcome Bool × Net Sockets)
      (rest : Net Sockets → p.State × Net Sockets)
      → P r.1
      → ((n : Net Sockets) → P n → P (rest n).1)
      → P (after_send send recv p r rest).1
  after_send-rule P (returns b, net) rest h k = k net h
  after_send-rule P (throws e, net) rest h k = h
  after_send-rule P (faults, net) rest h k = h

  pub send_all-rule :
      (P : Net Sockets → Type 0)
      → ((frame : Bytes) (n : Net Sockets) → P n → P (on_socket (send frame) n).1)
      → (s : p.State) (frames : List Bytes) (net : Net Sockets) → P net
      → P (send_all send recv p s frames net).1
  unfolding send_all
  send_all-rule P keep s [] net h = h
  send_all-rule P keep s (frame ∷ frames) net h =
      after_send-rule P (on_socket (send frame) net) _ (keep frame net h)
        (λ n k. send_all-rule P keep s frames n k)

  -- What holds of the end of a turn, if it holds where `recv_frame` throws and where it returns.
  pub after_recv-rule :
      (P : (p.State × Net Sockets) × Machine World → Type 0) (s : p.State) (m : Machine World)
      (r : Outcome Bytes × Net Sockets)
      (rest : Bytes → Net Sockets → (p.State × Net Sockets) × Machine World)
      → ((e : Exception) → P ((p.unread e s, r.1), m))
      → P ((p.broken, r.1), m)
      → ((frame : Bytes) → r.0 ≡ returns frame → P (rest frame r.1))
      → P (after_recv send recv p s m r rest)
  after_recv-rule P s m (returns frame, net) rest a b c = c frame refl
  after_recv-rule P s m (throws e, net) rest a b c = a e
  after_recv-rule P s m (faults, net) rest a b c = b

  pub drive_keeps :
      (fuel : ℕ) (s : p.State) (net : Net Sockets) (m : Machine World)
      → SameDescriptors (drive send recv p fuel s net m).0.1 net
  unfolding drive
  drive_keeps zero s net m = (refl, refl)
  drive_keeps (suc fuel) s net m = elim (Bool-cases (p.is_over s)) [
    | inl over ↦ rw (over) (refl, refl)
    | inr going ↦ rw (going) (
        after_recv-rule (λ x. SameDescriptors x.0.1 net) s m (on_socket recv net) _
          (λ e. (refl, refl)) (refl, refl)
          (λ frame got.
            let n = (on_socket recv net).1 in
            let r = p.step s frame m in
            let sent = send_all send recv p r.0.0 r.0.1 n in
            let (a, b) = drive_keeps fuel sent.0 sent.1 r.1 in
            let (c, d) =
              send_all-rule (λ k. SameDescriptors k net) (λ f k h. h) r.0.0 r.0.1 n (refl, refl) in
            (a ∙ c, b ∙ d)))
  ]

module _ {Sockets World : Type 0} (send : Bytes → Proc Sockets Bool) (recv : Proc Sockets Bytes)
    (p : Party World) where
  -- That many turns in a row in each of which `main` is not over and `recv_frame` returns a whole frame.
  abbrev pub Delivered : ℕ → p.State → Net Sockets → Machine World → Type 0
  Delivered zero s net m = Unit {0}
  Delivered (suc n) s net m =
      (frame : Bytes) × (p.is_over s ≡ false)
      × ((on_socket recv net).0 ≡ returns frame)
      × let r = p.step s frame m in
        let sent = send_all send recv p r.0.0 r.0.1 (on_socket recv net).1 in
        Delivered n sent.0 sent.1 r.1

  unless_over-rule :
      (P : (p.State × Net Sockets) × Machine World → Type 0) (b : Bool) (s : p.State)
      (net : Net Sockets) (m : Machine World)
      (go : Net Sockets → (p.State × Net Sockets) × Machine World)
      → (b ≡ true → P ((s, net), m))
      → (b ≡ false → P (go net))
      → P (unless_over send recv p b s net m go)
  unless_over-rule P true s net m go h k = h refl
  unless_over-rule P false s net m go h k = k refl

  -- On any sockets, a `main` is over or has had a frame for each unit of fuel.
  pub drive_goes_on :
      IsEnding p
      → (fuel : ℕ) (s : p.State) (net : Net Sockets) (m : Machine World)
      → (p.is_over (drive send recv p fuel s net m).0.0 ≡ true) ⊎ Delivered fuel s net m
  unfolding drive
  drive_goes_on ending zero s net m = inr tt
  drive_goes_on ending (suc fuel) s net m =
      unless_over-rule (λ x. (p.is_over x.0.0 ≡ true) ⊎ Delivered (suc fuel) s net m) (p.is_over s)
        s net m _ (λ over. inl over)
        (λ going.
          after_recv-rule send recv p (λ x. (p.is_over x.0.0 ≡ true) ⊎ Delivered (suc fuel) s net m)
            s m (on_socket recv net) _ (λ e. inl (ending.unread_ends e s)) (inl ending.broken_ends)
            (λ frame got.
              let r = p.step s frame m in
              let sent = send_all send recv p r.0.0 r.0.1 (on_socket recv net).1 in
              elim (drive_goes_on ending fuel sent.0 sent.1 r.1) [
                | inl over ↦ inl over
                | inr more ↦ inr (frame, going, got, more)
              ]))

module _ {Sockets World : Type 0} (lib : SocketLib Sockets) (r : IsReceiving lib)
    (keeps : (bs : Bytes) (w : Sockets) → r.pending (lib.send bs w).1 ≡ r.pending w)
    (p : Party World) (ending : IsEnding p) where
  -- Every frame takes from what is pending, so that more fuel than bytes is enough.
  pub drive_ends :
      (fuel : ℕ) (s : p.State) (net : Net Sockets) (m : Machine World)
      → length (r.pending net.world) < fuel
      → p.is_over (drive (send_frame lib) (recv_frame lib) p fuel s net m).0.0 ≡ true
  unfolding drive
  drive_ends zero s net m h = absurd (omega (arith, h))
  drive_ends (suc fuel) s net m h = elim (Bool-cases (p.is_over s)) [
    | inl over ↦ rw (over) over
    | inr going ↦ rw (going) (
        after_recv-rule (send_frame lib) (recv_frame lib) p (λ x. p.is_over x.0.0 ≡ true) s m
          (on_socket (recv_frame lib) net) _ (λ e. ending.unread_ends e s) ending.broken_ends
          (λ frame got.
            let here : Machine Sockets = record { world = net.world; live = 0 } in
            let there = (recv_frame lib here).1 in
            let (_, _, taken) =
              recv_frame_takes lib r here there frame (ap (λ o. (o, there)) got) in
            let q = p.step s frame m in
            let n = (on_socket (recv_frame lib) net).1 in
            let sent = send_all (send_frame lib) (recv_frame lib) p q.0.0 q.0.1 n in
            let still : r.pending sent.1.world ≡ r.pending n.world =
              send_all-rule (send_frame lib) (recv_frame lib) p
                (λ k. r.pending k.world ≡ r.pending n.world)
                (λ f k same.
                  send_frame_keeps lib r keeps f (record { world = k.world; live = 0 }) ∙ same)
                q.0.0 q.0.1 n refl in
            drive_ends fuel sent.0 sent.1 q.1 (omega (arith, h, taken, ap length still))))
  ]
