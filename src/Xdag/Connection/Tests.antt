-- ===== src/Xdag/Connection/Tests.antt =====
-- The theorems about the connection to the pool, at concrete inputs.
use xmrig2xdag.Common.{ℕ, ◌≡◌, refl, List, [], ◌∷◌, ◌++◌, some, false, replicate, arith}
use xmrig2xdag.Xdag.Connection.{
  Connection, new_connection, Step, sends, selects, writes, stops, run,
}
use xmrig2xdag.Xdag.Connection.Order.{IsOrdered, run-IsOrdered}
use xmrig2xdag.Xdag.Connection.Stuck.{filling, stuck, run-stuck}
use xmrig2xdag.Xdag.Connection.Reader.{eof, Ended, read_steps, reader, concat, read_steps-Ended}

abbrev some_steps : List Step
some_steps =
    sends (1 ∷ []) ∷ selects 0 false ∷ sends (2 ∷ []) ∷ writes false ∷ stops ∷ sends (3 ∷ []) ∷ []

run-IsOrdered_example :
    (c : Connection) × (accepted : List (List ℕ)) × (run some_steps (new_connection 5)
      ≡ some (c, accepted))
    × IsOrdered c accepted
run-IsOrdered_example = run-IsOrdered 5 some_steps

run-stuck_example :
    (run (filling (4 ∷ [])) (new_connection 5) ≡ some (stuck 5 (4 ∷ []), replicate 9 (4 ∷ [])))
    × ((stuck 5 (4 ∷ [])).waiting ≡ some (4 ∷ []))
    × (run (stops ∷ []) (stuck 5 (4 ∷ [])) ≡ some (stuck 5 (4 ∷ []), []))
run-stuck_example = run-stuck 5 (4 ∷ []) (stops ∷ [])

abbrev fields : List (List ℕ)
fields = replicate 32 7 ∷ replicate 32 8 ∷ []

read_steps-Ended_example :
    Ended
      (new_connection 5)
      fields
      []
      eof
      (read_steps 3 (reader (new_connection 5) (concat fields ++ []) eof []))
unfolding new_connection
read_steps-Ended_example =
    read_steps-Ended (new_connection 5) fields [] eof refl refl (refl, (refl, tt)) (omega arith)
