-- ===== src/Vm/Teardown/Examples.antt =====
-- The end of a run with one machine.
use omashiki.Common.{◌≡◌, refl, ap, ◌∙◌, true, false, none, List, [], ◌∷◌, ◌⊎◌}
use omashiki.Common.Text.{Text, txt}
use omashiki.Vm.Machines.{Trace}
use omashiki.Vm.Machines.Stop.Off.{OffNow}
use omashiki.Vm.Machines
use omashiki.Vm.Machines.Examples as Machine
use omashiki.Vm.Cleanup
use omashiki.Vm.Cleanup.Examples as Ended
use omashiki.Vm.Cleanup.Exit.{run, success}
use omashiki.Vm.Teardown.{after_stop, IsDone, stopped, tearing_down, tearing_down-IsDone}

abbrev names : List Text
names = txt "vm1" ∷ []

abbrev host : Machines.World
host = Machine.world

-- The run has made its machine, and does not keep it.
abbrev whole : Cleanup.World
whole = tearing_down host (λ n. true) 3 names names names names (λ n. none) [] Ended.world

as_ended : whole ≡ Ended.world
unfolding tearing_down stopped
as_ended = rw (Machine.stops, Machine.verifies, Machine.removes) refl

done : (run whole success true Ended.start).1.0 ≡ 0
done = ap (λ c. (run c success true Ended.start).1.0) as_ended ∙ Ended.ended

tearing_down-IsDone_example :
    ((names ≡ [])
      ⊎ OffNow host names (after_stop host (λ n. true) 3 names names names names (λ n. none) []))
    × IsDone host (λ n. true) 3 names names names names (λ n. none) [] false
tearing_down-IsDone_example =
    tearing_down-IsDone host (λ n. true) 3 names names names names (λ n. none) [] Ended.world
      success true Ended.start tt done
