-- ===== src/Programs/Descriptors.antt =====
-- The descriptors and the uses of WinSock of the two programs of MessengerApp.
use lib_crypt_safe_messenger.Common.{
  ℕ, List, ◌∷◌, ◌≡◌, refl, ap, ◌∙◌, ℤ, pos, negsuc, ==_self, arith,
}
use lib_crypt_safe_messenger.Transport.{Net, Platform, posix, windows, gave, ask_socket}
use lib_crypt_safe_messenger.Programs.{TcpCalls, without, startup, cleanup}
use lib_crypt_safe_messenger.Programs.Server.{server_setup}
use lib_crypt_safe_messenger.Programs.Client.{client_setup}

-- What is open once a call has given a descriptor, or has failed.
abbrev pub adding : ℤ → List ℕ → List ℕ
adding (pos fd) opened = fd ∷ opened
adding (negsuc n) opened = opened

pub without-adding : (fd : ℤ) (opened : List ℕ) → without fd (adding fd opened) ≡ opened
without-adding (pos fd) opened = rw (==_self fd) refl
without-adding (negsuc n) opened = refl

module _ {World : Type 0} where
  gave_adds :
      (opened : List ℕ) (n : ℕ) (r : ℤ × World)
      → ((gave opened n r).1.opened ≡ adding (gave opened n r).0 opened)
        × ((gave opened n r).1.startups ≡ n)
  gave_adds opened n (pos fd, w) = (refl, refl)
  gave_adds opened n (negsuc k, w) = (refl, refl)

module _ {World : Type 0} (platform : Platform) (tcp : TcpCalls World) where
  startup_opens : (net : Net World) → (startup platform tcp net).opened ≡ net.opened
  startup_opens net = starts platform
    where
      starts : (p : Platform) → (startup p tcp net).opened ≡ net.opened
      starts posix = refl
      starts windows = refl

  -- WSACleanup undoes WSAStartup.
  pub cleaned :
      (before net : Net World)
      → net.startups ≡ (startup platform tcp before).startups
      → ((cleanup platform tcp net).opened ≡ net.opened)
        × ((cleanup platform tcp net).startups ≡ before.startups)
  cleaned before net h = cleans platform h
    where
      cleans :
          (p : Platform)
          → net.startups ≡ (startup p tcp before).startups
          → ((cleanup p tcp net).opened ≡ net.opened)
            × ((cleanup p tcp net).startups ≡ before.startups)
      cleans posix k = (refl, k)
      cleans windows k = (refl, omega (arith, k))

  pub server_setup_opens :
      (net : Net World)
      → let ((srv, cli), accepted) = server_setup platform tcp net in
        (accepted.opened ≡ adding cli (adding srv net.opened))
        × (accepted.startups ≡ (startup platform tcp net).startups)
  unfolding server_setup
  server_setup_opens net =
      let first = startup platform tcp net in
      let made = ask_socket tcp.socket first in
      let (a, b) = gave_adds first.opened first.startups (tcp.socket first.world) in
      let (c, d) = gave_adds made.1.opened made.1.startups _ in
      (c ∙ ap (adding _) (a ∙ ap (adding made.0) (startup_opens net)), d ∙ b)

  pub client_setup_opens :
      (net : Net World)
      → let ((sock, rc), connected) = client_setup platform tcp net in
        (connected.opened ≡ adding sock net.opened)
        × (connected.startups ≡ (startup platform tcp net).startups)
  unfolding client_setup
  client_setup_opens net =
      let first = startup platform tcp net in
      let made = ask_socket tcp.socket first in
      let (a, b) = gave_adds first.opened first.startups (tcp.socket first.world) in
      (a ∙ ap (adding made.0) (startup_opens net), b)
