-- ===== src/Server/Edges/Processes/Stopped.antt =====
-- broker/server/req_handler.c and resp_handler.c: how `main` ends.
use sistemas_distribuid.Base.{ℤ, ◌≡◌, ◌⊎◌}
use sistemas_distribuid.Os.{Os, Program, Process}
use sistemas_distribuid.Os as Os
use sistemas_distribuid.Os.Proc.{Result, ret, exits, becomes}
use sistemas_distribuid.Os.Children.{HasForked, IsStopped}

-- The child was forked and has been stopped.
abbrev IsReleased : Process → Type 0
IsReleased s = (pid : ℤ) × HasForked pid s × IsStopped pid s

-- How `main` of the request handler can be over.
abbrev pub IsServed : {Q : Type 0} → Result Q × Process → Type 0
IsServed {Q = Q} (r, s) =
    ((q : Q) × (r ≡ ret q) × IsReleased s)
    ⊎ (((code : ℤ) × (r ≡ exits code)) ⊎ ((p : Program) × (r ≡ becomes p)))
