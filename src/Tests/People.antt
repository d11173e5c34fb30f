-- ===== src/Tests/People.antt =====
-- The processes of the museum, and the client and the server of sockets/, on the kernel of the tests
-- of the processes.
use sistemas_distribuid.Base.{
  ℕ, refl, pos, List, [], ◌∷◌, ◌++◌, arith, true, text, take, drop, keep, replicate,
}
use sistemas_distribuid.Museum.{Hall, entrance_request, exit_request, accept}
use sistemas_distribuid.Museum.Tour.{Tour, tour_request}
use sistemas_distribuid.Museum.Doors as Doors
use sistemas_distribuid.Museum.Doors.Round.{Entrance, Exit}
use sistemas_distribuid.Museum.Doors.Answered.{IsOver, opened, doors-IsOver}
use sistemas_distribuid.Museum.People as People
use sistemas_distribuid.Museum.Staff as Staff
use sistemas_distribuid.Museum.Staff.Touring.{IsStuck, main_guide-IsStuck}
use sistemas_distribuid.Sockets.{respond, remove_vowels}
use sistemas_distribuid.Sockets.Vowels.{consonant}
use sistemas_distribuid.Sockets.Client as Client
use sistemas_distribuid.Sockets.Client.{HasPrinted, main-HasPrinted}
use sistemas_distribuid.Os.Proc.{fresh}
use sistemas_distribuid.Tests.Setup.{calls, calls-IsUp}
use sistemas_distribuid.Tests.Processes.{kernel, kernel-IsSignalled}

abbrev hall : Hall
hall = record { cap = 20; is_open = true; sem = 1 }

-- Other visitors leave by the exit door all the time, and their requests come in here.
abbrev door : Doors.Env
door = record {
  os = kernel;
  calls = calls;
  received = λ h. record { mtype = pos 40; type = entrance_request };
  others = λ h hall. record hall { cap = 20 };
}

doors-IsOver_example :
    IsOver entrance_request Entrance
      (Doors.main_entrance door 0 1 21 (opened hall) fresh)
      (Doors.main_entrance door 0 1 0 (opened hall) fresh)
    × IsOver exit_request Exit
        (Doors.main_exit door 0 1 21 (opened hall) fresh)
        (Doors.main_exit door 0 1 0 (opened hall) fresh)
doors-IsOver_example =
    doors-IsOver door 0 1 20 hall calls-IsUp (λ s h free. free) kernel-IsSignalled refl

abbrev one_waits : Tour
one_waits = record {
  count = 1;
  count_sem = 1;
  start_sem = 1;
  requests = record { mtype = pos 40; type = tour_request } ∷ [];
  responses = [];
}

abbrev visitor : People.Env
visitor = record {
  os = kernel;
  calls = calls;
  pid = pos 40;
  rand = λ h. 4;
  received = λ h. record { mtype = pos 40; type = accept };
  tour = λ h. one_waits;
}

abbrev guide : Staff.Env
guide = record { os = kernel; calls = calls; others = λ h t. record t { count = 1 } }

main_guide-IsStuck_example :
    IsStuck (Staff.main_guide guide 1 one_waits fresh) (Staff.main_guide guide 0 one_waits fresh)
main_guide-IsStuck_example =
    main_guide-IsStuck guide 0 one_waits calls-IsUp
      (record { shared = λ s t free. free; waiting = λ s t. omega arith }) refl

-- `hola`, read into a buffer that held other characters.
abbrev hola : List ℕ
hola = b'h' ∷ b'o' ∷ b'l' ∷ b'a' ∷ []

abbrev client : Client.Env
client = record {
  os = kernel;
  write = λ h. pos 4;
  read = λ h. pos 4;
  answer = λ h. remove_vowels (hola ++ drop 4 (replicate 100 b'x'));
}

main-HasPrinted_example :
    HasPrinted
      (take 4 (keep consonant (hola ++ text (drop 4 (replicate 100 b'x')))))
      (Client.main client ((b'c' ∷ []) ∷ hola ∷ []) fresh)
unfolding respond
main-HasPrinted_example =
    main-HasPrinted client (b'c' ∷ []) hola (replicate 100 b'x') [] 100 4
      (refl, (refl, (refl, (refl, tt)))) (omega arith) refl (λ h. refl) (λ h. refl) (λ h. refl)
