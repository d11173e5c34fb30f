-- ===== src/Sockets/Client.antt =====
-- sockets/client.c: `main`, as a process, and what it prints.
use mathlib.Core.List.{Memᴰ}
use sistemas_distribuid.Base.{
  ℕ, ◌≤◌, ℤ, pos, minus_one, is_neg, ◌=ℤ◌, not, if◌then◌else◌, ◌≡◌, refl, sym, ap, ◌∙◌, ◌⊎◌, inl,
  inr, List, [], ◌∷◌, ◌++◌, length, take, drop, keep, text, Option, some,
}
use sistemas_distribuid.Os.{Os, Event, Process, log, socket, gethostbyname, connect, close}
use sistemas_distribuid.Os.Proc.{Proc, Result, ret, exits, pure, exit, sys, ◌>>=◌, ◌>>◌, fresh}
use sistemas_distribuid.Os.Calm.{if-Over}
use sistemas_distribuid.Sockets.{respond, print_answer, buffer_size}
use sistemas_distribuid.Sockets.Vowels.{consonant}
use sistemas_distribuid.Sockets.Exchange.{IsText, exchange-text}
use sistemas_distribuid.Sockets.Processes.{port}
use sistemas_distribuid.Sockets.Processes.Served.{HasClosed}

-- The answers of the kernel, the results of `write` and `read`, and what the server has written.
pub record Env : Type 0 where
  pub os : Os
  pub write : List Event → ℤ
  pub read : List Event → ℤ
  pub answer : List Event → List ℕ

module _ (e : Env) where
  -- The message is sent, and the answer is read into it.
  unfoldable pub exchange : List ℕ → Proc (Option (List ℕ))
  exchange msg s =
      (ret (print_answer msg (e.write s.history) (e.read s.history) (e.answer s.history)), s)

  -- `main`, with the arguments: the text that it prints. Where `gethostbyname` returns `NULL` the
  -- answer is -1. Whether `close` fails is only printed.
  unfoldable pub main : List (List ℕ) → Proc (Option (List ℕ))
  main [] = exit minus_one
  main (name ∷ []) = exit minus_one
  main (name ∷ msg ∷ argv) = do
    socket_fd ← sys e.os socket
    if is_neg socket_fd then exit minus_one else do
      server ← sys e.os gethostbyname
      if is_neg server then exit minus_one else do
        connected ← sys e.os (connect socket_fd port)
        if not (connected =ℤ pos 0)
            then exit minus_one
            else do printed ← exchange msg; sys e.os (close socket_fd); pure printed

-- What is printed of an answer that the child has written.
printed :
    (msg before answer : List ℕ) (wrote sent : ℕ)
    → IsText msg
    → length msg ≤ buffer_size
    → length before ≡ buffer_size
    → respond (pos (length msg)) msg before (pos wrote) ≡ (pos 0, some answer)
    → print_answer msg (pos sent) (pos (length msg)) answer
      ≡ some (take (length msg) (keep consonant (msg ++ text (drop (length msg) before))))
printed msg before answer wrote sent plain short whole answered =
    let (answer', same, shown) = exchange-text msg before wrote sent plain short whole in
    ap (print_answer msg (pos sent) (pos (length msg)))
      (some-injective (ap (λ x. x.1) (sym answered ∙ same)))
    ∙ shown
  where
    some-injective : {x y : List ℕ} → some x ≡ some y → x ≡ y
    some-injective h = cc

-- How `main` is over: it exits with -1, or it has printed this text and closed its socket.
abbrev pub HasPrinted : List ℕ → Result (Option (List ℕ)) × Process → Type 0
HasPrinted shown x = (x.0 ≡ exits minus_one) ⊎ ((x.0 ≡ ret (some shown)) × HasClosed x.1)

-- Where the text that a client sends has at most 100 characters and no NUL among them, the child
-- that answers reads it whole into its buffer of 100 characters and writes its answer, and the
-- client reads as many characters as its text has, without the NUL: main of the client exits with
-- -1, or it has closed its socket and has printed its text without the vowels and behind it, where
-- vowels were taken out, what the buffer held there before, in as many characters as the text has.
pub main-HasPrinted :
    (e : Env) (name msg before : List ℕ) (argv : List (List ℕ)) (wrote sent : ℕ)
    → IsText msg
    → length msg ≤ buffer_size
    → length before ≡ buffer_size
    → ((h : List Event) → e.write h ≡ pos sent)
    → ((h : List Event) → e.read h ≡ pos (length msg))
    → ((h : List Event)
        → respond (pos (length msg)) msg before (pos wrote) ≡ (pos 0, some (e.answer h)))
    → HasPrinted
        (take (length msg) (keep consonant (msg ++ text (drop (length msg) before))))
        (main e (name ∷ msg ∷ argv) fresh)
unfolding main exchange
main-HasPrinted e name msg before argv wrote sent plain short whole writes reads answers =
    let shown : List ℕ =
      take (length msg) (keep consonant (msg ++ text (drop (length msg) before))) in
    let fd : ℤ = e.os [] socket in
    let s1 : Process = log socket fd fresh in
    let server : ℤ = e.os s1.history gethostbyname in
    let s2 : Process = log gethostbyname server s1 in
    let connected : ℤ = e.os s2.history (connect fd port) in
    let s3 : Process = log (connect fd port) connected s2 in
    if-Over (HasPrinted shown) s1 (is_neg fd) _ _ (λ _. inl refl)
      (λ _.
        if-Over (HasPrinted shown) s2 (is_neg server) _ _ (λ _. inl refl)
          (λ _.
            if-Over (HasPrinted shown) s3 (not (connected =ℤ pos 0)) _ _ (λ _. inl refl)
              (λ _. inr (
                rw (writes s3.history, reads s3.history)
                    (ap ret (
                      printed msg before (e.answer s3.history) wrote sent plain short whole
                        (answers s3.history))),
                (fd, _, Memᴰ.head refl),
              ))))
