-- ===== src/Wrapper/Clients/Scratch.antt =====
-- pkg/wrapper/distribution.go: the scratch directory of a pull.
use helm_c_sdk.Base.{◌≡◌, refl, Option, String}
use helm_c_sdk.Go.{returns, deferred}
use helm_c_sdk.Go.Laws.{bind-returns}
use helm_c_sdk.Options.Transfer.{PullOptions}
use helm_c_sdk.Sdk.{Sdk}
use helm_c_sdk.Sdk.Structs.{Outside}
use helm_c_sdk.Process.{Object, Process}
use helm_c_sdk.Wrapper.Settings.{private_temp_dir}
use helm_c_sdk.Wrapper.Clients.{resolve_client, pull_with, pull_chart}

-- Once the scratch directory of a pull is made, the last thing that the pull does to the outside world
-- is to remove that directory: whether the download succeeds, fails or panics.
pub pull_removes_scratch :
    (sdk : Sdk) (obj : Option (Object sdk.types)) (chart_ref : String) (opts : PullOptions)
    (p q q' : Process sdk.types) (client : Option sdk.Client) (dir : String)
    → resolve_client sdk obj (sdk.is_oci chart_ref) opts.plain_http p ≡ (returns client, q)
    → private_temp_dir sdk "pull" q ≡ (returns dir, q')
    → (o : Outside sdk.types) × ((pull_chart sdk obj chart_ref opts p).1.outside
        ≡ sdk.remove_all dir o)
unfolding pull_chart
pull_removes_scratch sdk obj chart_ref opts p q q' client dir chosen made = (
  (pull_with sdk client dir chart_ref opts q').1.outside,
  rw (bind-returns _ _ p q client chosen)
      (rw (bind-returns _ _ q q' dir made) (unfold deferred in refl)),
)
