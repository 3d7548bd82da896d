-- ===== src/Programs/Ranked.antt =====
-- A `main` of MessengerApp that waits for fewer frames after each.
use lib_crypt_safe_messenger.Common.{
  ℕ, zero, suc, ◌≤◌, ◌<◌, List, [], ◌∷◌, ◌≡◌, Bool, true, false, Bool-cases, inl, inr, Bytes, arith,
}
use lib_crypt_safe_messenger.Common.Proc.{Proc, Machine, Outcome, returns, throws, faults}
use lib_crypt_safe_messenger.Transport.{Net}
use lib_crypt_safe_messenger.Programs.{Party, on_socket, after_send, send_all, drive}
use lib_crypt_safe_messenger.Programs.Progress.{IsEnding, after_recv-rule}

module _ {Sockets World : Type 0} (send : Bytes → Proc Sockets Bool) (recv : Proc Sockets Bytes)
    (p : Party World) (ending : IsEnding p) (rank : p.State → ℕ)
    (over_last : (s : p.State) → rank s ≡ 0 → p.is_over s ≡ true)
    (over_rank : (s : p.State) → p.is_over s ≡ true → rank s ≡ 0)
    (falls : (s : p.State) (frame : Bytes) (m : Machine World)
      → p.is_over s ≡ false
      → rank (p.step s frame m).0.0 < rank s) where
  after_send_rank :
      (n : ℕ) (r : Outcome Bool × Net Sockets) (rest : Net Sockets → p.State × Net Sockets)
      → ((k : Net Sockets) → rank (rest k).0 ≤ n)
      → rank (after_send send recv p r rest).0 ≤ n
  after_send_rank n (returns b, net) rest h = h net
  after_send_rank n (throws e, net) rest h =
      omega (arith, over_rank (p.uncaught e) (ending.uncaught_ends e))
  after_send_rank n (faults, net) rest h = omega (arith, over_rank p.broken ending.broken_ends)

  send_all_rank :
      (s : p.State) (frames : List Bytes) (net : Net Sockets)
      → rank (send_all send recv p s frames net).0 ≤ rank s
  unfolding send_all
  send_all_rank s [] net = omega arith
  send_all_rank s (frame ∷ frames) net =
      after_send_rank (rank s) (on_socket (send frame) net) _ (λ k. send_all_rank s frames k)

  pub drive_ranked :
      (fuel : ℕ) (s : p.State) (net : Net Sockets) (m : Machine World)
      → rank s ≤ fuel
      → p.is_over (drive send recv p fuel s net m).0.0 ≡ true
  unfolding drive
  drive_ranked zero s net m h = over_last s (omega (arith, h))
  drive_ranked (suc fuel) s net m h = elim (Bool-cases (p.is_over s)) [
    | inl over ↦ rw (over) over
    | inr going ↦ rw (going) (
        after_recv-rule send recv p (λ x. p.is_over x.0.0 ≡ true) s m (on_socket recv net) _
          (λ e. ending.unread_ends e s) ending.broken_ends
          (λ frame got.
            let r = p.step s frame m in
            let n = (on_socket recv net).1 in
            let sent = send_all send recv p r.0.0 r.0.1 n in
            drive_ranked fuel sent.0 sent.1 r.1
              (omega (arith, h, falls s frame m going, send_all_rank r.0.0 r.0.1 n))))
  ]
