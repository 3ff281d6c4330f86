-- ===== src/Enroll/Main/Examples.antt =====
-- A worker that accepts its house, and a wait that ends.
use omashiki.Common.{
  ℕ, zero, suc, ◌<◌, ◌==◌, if◌then◌else◌, inl, inr, ◌≡◌, ◌≢◌, refl, true, false, none, some, ok,
  arith,
}
use Prim.Native.String.{String}
use omashiki.Common.Int.{pos}
use omashiki.Common.Text.{txt, text_eq, is_space, lstrip, rstrip, strip}
use omashiki.Json.{Json, str, obj, field, end, value, decode_error, get_attr}
use omashiki.Enroll.{
  Names, normalize_base_url, is_loopback_host, host_tested, is_loopback_manager_url, manager_items,
  build_enroll_body, build_enroll_request, responded, read_wire, enroll,
}
use omashiki.Enroll.Health.{
  Turn, failed, answered, is_healthy, wait_for_health, wait_for_health-ends,
}
use omashiki.Enroll.Health.Finds.{wait_for_health-finds, Unhealthy}
use omashiki.Enroll.Main.{Args, World, require_setting, status_of, attempt, main}
use omashiki.Enroll.Main.Laws.{Enrolled, main-Enrolled}

runs : Unit {0}
unfolding normalize_base_url is_loopback_host host_tested is_loopback_manager_url manager_items
    build_enroll_body build_enroll_request read_wire enroll require_setting status_of attempt main
    txt text_eq is_space lstrip rstrip strip
runs = tt

abbrev names : Names
names = record {
  hostname = λ url. some (some (txt "house.lan"));
  lower = λ t. t;
  is_loopback_ip = λ t. none;
}

abbrev turn : ℕ → Turn
turn n = record { at = pos n; answer = λ url. failed (txt "refused") }

abbrev world : World
world = record {
  names = names;
  repr = λ v. txt "{}";
  loads = λ raw. decode_error;
  decode = λ raw. txt "";
  post = λ request. responded 204;
  turn = turn;
  deadline = pos 3;
}

abbrev args : Args
args = record {
  worker_url = some (txt "http://worker:4011/");
  manager_url = some (txt " http://house.lan:4010 ");
  worker_token = some (txt "token");
  enroll_secret = some (txt "secret");
  manager_id = none;
  skip_health = true;
  allow_localhost = false;
}

done : main world 1 args ≡ ok (some 0)
unfolding runs
done = refl

main-Enrolled_example : Enrolled world 1 args
main-Enrolled_example = main-Enrolled world 1 args done

wait_for_health-ends_example :
    wait_for_health (λ v. txt "{}") (txt "http://worker:4011") turn (pos 3) 4 ≢ ok none
wait_for_health-ends_example =
    wait_for_health-ends (λ v. txt "{}") (txt "http://worker:4011") turn (pos 3) 4 3 refl
      (omega arith)

-- The worker refuses the first question, is still a house at the second, and healthy at the third.
abbrev health : String → Json
health role = obj (field (txt "role") (str (txt role)) (field (txt "status") (str (txt "ok")) end))

abbrev grows : ℕ → Turn
grows n = record {
  at = pos n;
  answer = λ url.
      if n == 0
      then failed (txt "refused")
      else answered (value (health (if n == 1 then "house" else "worker")));
}

sick : (i : ℕ) → i < 2 → Unhealthy ((grows i).answer (txt "http://worker:4011/healthz"))
unfolding is_healthy txt text_eq get_attr
sick zero early = inl (txt "refused", refl)
sick (suc zero) early = inr (health "house", refl, refl)
sick (suc (suc n)) early = absurd (omega arith)

base_read : normalize_base_url (txt "http://worker:4011") ≡ ok (txt "http://worker:4011")
unfolding runs
base_read = refl

well : is_healthy (health "worker") ≡ ok true
unfolding is_healthy txt text_eq get_attr
well = refl

wait_for_health-finds_example :
    wait_for_health (λ v. txt "{}") (txt "http://worker:4011") grows (pos 3) 3
    ≡ ok (some (health "worker"))
wait_for_health-finds_example =
    wait_for_health-finds (λ v. txt "{}") (txt "http://worker:4011") grows (pos 3) 3 2
      (txt "http://worker:4011") (health "worker") base_read (λ i h. ground (arith, h)) sick refl
      well (omega arith)
