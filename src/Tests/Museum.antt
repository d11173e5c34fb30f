-- ===== src/Tests/Museum.antt =====
-- museum/src: a visitor enters.
use sistemas_distribuid.Base.{refl, true, [], ◌∷◌}
use sistemas_distribuid.Museum.{Hall, accept, create_museum, entrance_door}
use sistemas_distribuid.Museum.Visits.{Museum, inside, Step, Reach, IsCounted, Reach-IsCounted}
use sistemas_distribuid.Tests.Setup.{calls, calls-IsUp}

abbrev opened : Hall
opened = record { cap = 20; is_open = true; sem = 1 }

abbrev one_in : Museum
one_in = record { hall = record { cap = 19; is_open = true; sem = 1 }; people = inside ∷ [] }

one_enters : Reach calls one_in
unfolding create_museum entrance_door sistemas_distribuid.Ipc.Kernel.p
    sistemas_distribuid.Ipc.Kernel.v
one_enters =
    Reach.next (Reach.next Reach.start (Step.arrive opened []))
      (Step.enter opened one_in.hall [] [] accept refl)

Reach-IsCounted_example : IsCounted one_in
Reach-IsCounted_example = Reach-IsCounted calls-IsUp one_enters
