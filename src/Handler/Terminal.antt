-- ===== src/Handler/Terminal.antt =====
-- `on_terminal`: the line that it logs. `repr` is Python's rendering of a list or dictionary.
use omashiki.Common.{◌++◌, Result, ok, ◌>>=◌}
use omashiki.Common.Text.{Text, txt}
use omashiki.Json.{Json, py_str}
use omashiki.Handler.Base.{Error}
use omashiki.Handler.Envelope.{get, get_dict}

-- `f"job {job_id} {status} for {correlation_id} branch={branch} head={head_sha}"`
pub terminal_line : (Json → Text) → Json → Result Error Text
terminal_line repr payload = do
  git ← get_dict payload (txt "git")
  job_id ← get payload (txt "job_id")
  status ← get payload (txt "status")
  correlation_id ← get payload (txt "correlation_id")
  branch ← get git (txt "branch")
  head ← get git (txt "head_sha")
  ok (
      txt "job "
      ++ (py_str repr job_id
          ++ (txt " "
              ++ (py_str repr status
                  ++ (txt " for "
                      ++ (py_str repr correlation_id
                          ++ (txt " branch="
                              ++ (py_str repr branch ++ (txt " head=" ++ py_str repr head)))))))))
