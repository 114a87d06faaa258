-- ===== src/Agent/ProcTests.antt =====
-- Files of /proc, and the theorem on a stat line at a thread with a hostile name.
use gpu_node_health.Base.{String, ◌≡◌, refl, none, some, List, [], ◌∷◌, ◌=s=◌, if◌then◌else◌, arith}
use gpu_node_health.Base.Int.{pos}
use gpu_node_health.Base.Chars.{is_space}
use gpu_node_health.Base.Show.{show_ℤ}
use gpu_node_health.Agent.Census.{CensusConfig, symbol, collect, count_task}
use gpu_node_health.Agent.Proc.{Proc, contents, permission_error, read_stat, read_wchan, census}
use gpu_node_health.Agent.Proc.Stat.{stat_line, read_stat-stat_line}

abbrev fields : List String
fields =
    "2" ∷ "0" ∷ "0" ∷ "0" ∷ "-1" ∷ "69238880" ∷ "0" ∷ "0" ∷ "0" ∷ "0" ∷ "0" ∷ "0" ∷ "0" ∷ "0" ∷ "20"
    ∷ "0" ∷ "1" ∷ "0" ∷ "1204" ∷ "0" ∷ []

-- A name that looks like the end of another line.
abbrev hostile : String
hostile = "x) R 1 (y z"

read_stat-stat_line_example :
    read_stat (some (stat_line "17 " hostile ("D" ∷ fields)))
    ≡ some (record { comm = hostile; state = "D"; starttime = pos 1204 })
unfolding is_space show_ℤ
read_stat-stat_line_example =
    read_stat-stat_line "17 " hostile "D" fields (pos 1204) refl
      (
        (refl, refl),
        (
          (refl, refl),
          (
            (refl, refl),
            (
              (refl, refl),
              (
                (refl, refl),
                (
                  (refl, refl),
                  (
                    (refl, refl),
                    (
                      (refl, refl),
                      (
                        (refl, refl),
                        (
                          (refl, refl),
                          (
                            (refl, refl),
                            (
                              (refl, refl),
                              (
                                (refl, refl),
                                (
                                  (refl, refl),
                                  (
                                    (refl, refl),
                                    (
                                      (refl, refl),
                                      (
                                        (refl, refl),
                                        (
                                          (refl, refl),
                                          ((refl, refl), ((refl, refl), ((refl, refl), tt))),
                                        ),
                                      ),
                                    ),
                                  ),
                                ),
                              ),
                            ),
                          ),
                        ),
                      ),
                    ),
                  ),
                ),
              ),
            ),
          ),
        ),
      )
      (omega arith) refl

short_test : read_stat (some "17 (sh) D 2") ≡ none
unfolding read_stat
short_test = refl

running_test : read_wchan (contents "0\n") ≡ symbol ""
unfolding read_wchan
running_test = refl

abbrev proc : Proc
proc = record {
  entries = some ("17" ∷ "self" ∷ []);
  threads = λ pid. if pid =s= "17" then some ("17" ∷ "18" ∷ []) else none;
  stat = λ pid tid. if tid =s= "18" then some (stat_line "18 " hostile ("D" ∷ fields)) else none;
  wchan = λ pid tid. permission_error;
}

abbrev config : CensusConfig
config = record {
  stuck_seconds = pos 60;
  gpu_comm_prefixes = [];
  gpu_wchan_substrings = "dma_fence" ∷ [];
}

-- The thread in D is counted, and so is its hidden wchan.
denied_test : (census config (pos 0) proc []).1.wchan_denied ≡ 1
unfolding census collect count_task
denied_test = refl
