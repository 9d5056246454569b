-- ===== src/Capi/Charts/Archive.antt =====
-- helm_chart_load_archive of capi/extra.go: the length of the caller's buffer.
use helm_c_sdk.Base.{
  ℕ, ◌^◌, ◌<◌, ◌≤◌, ◌≡◌, refl, arith, ◌⊎◌, inl, inr, true, false, some, List, take,
}
use helm_c_sdk.Base.Int.{pos}
use helm_c_sdk.Errors.{code_invalid_arg, new_error}
use helm_c_sdk.Go.{Go, fail, ◌>>=◌}
use helm_c_sdk.Go.Laws.{bind-returns}
use helm_c_sdk.Sdk.{Sdk}
use helm_c_sdk.Process.{Process}
use helm_c_sdk.Capi.Boundary.{holds, ErrorOut, clear_error_out, failure, handle_result}
use helm_c_sdk.Capi.Charts.{
  int32_of, archive_length, go_bytes, load_chart_archive, put_chart, load_bytes, archive_body,
  helm_chart_load_archive,
}

-- archiveLength accepts exactly the lengths from 1 to 2 ^ 31 - 1, and gives each of them unchanged: the
-- narrowing to 32 bits never wraps. Anything else, 0 included, is refused.
pub archive_length_exact :
    (n : ℕ)
    → ((0 < n) × (n < 2 ^ 31) × (archive_length n ≡ (pos n, true)))
      ⊎ (((n ≡ 0) ⊎ (2 ^ 31 ≤ n)) × (archive_length n ≡ (pos 0, false)))
unfolding archive_length int32_of
archive_length_exact n = ground arith

-- A handle for the chart in the bytes.
abbrev pub load_whole : (sdk : Sdk) → List ℕ → Go (Process sdk.types) ℕ
load_whole sdk bytes = load_chart_archive sdk bytes >>= put_chart sdk

load_bytes-taken :
    (sdk : Sdk) (bytes : List ℕ) (n : ℕ) (p : Process sdk.types)
    → load_bytes sdk bytes (pos n, true) p ≡ load_whole sdk (take n bytes) p
unfolding load_bytes
load_bytes-taken sdk bytes n p = bind-returns _ _ p p (take n bytes) (unfold go_bytes in refl)

-- helm_chart_load_archive with a buffer of 1 to 2 ^ 31 - 1 bytes gives the SDK exactly those bytes, and
-- answers with a handle for their chart or with the SDK's failure; with any other length it fails with
-- the invalid-argument code, and neither the SDK is called nor anything changed.
pub load_archive_bounded :
    (sdk : Sdk) (bytes : List ℕ) (n x : ℕ) (o : ErrorOut) (p : Process sdk.types)
    → ((0 < n)
        × (n < 2 ^ 31)
        × (helm_chart_load_archive sdk (some bytes) n (holds x) o p
            ≡ handle_result (holds x) o (load_whole sdk (take n bytes)) p))
      ⊎ (((n ≡ 0) ⊎ (2 ^ 31 ≤ n))
          × (helm_chart_load_archive sdk (some bytes) n (holds x) o p ≡ (
            failure
                (holds x)
                (clear_error_out o)
                (new_error code_invalid_arg "length must be 1..2^31-1"),
            p,
          )))
unfolding helm_chart_load_archive archive_body handle_result
load_archive_bounded sdk bytes n x o p = elim (archive_length_exact n) [
  | inl (low, high, e) ↦ inl (low, high, rw (e, load_bytes-taken) refl)
  | inr (out, e) ↦ inr (out, rw e (unfold load_bytes fail in refl))
]
