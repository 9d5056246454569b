-- ===== src/Capi/Tags/Charts.antt =====
-- capi: loading charts keeps the tags.
use helm_c_sdk.Base.{ℕ, Bool, true, false, Option, none, some, List}
use helm_c_sdk.Base.Int.{ℤ, pos, negsuc}
use helm_c_sdk.Sdk.{Sdk}
use helm_c_sdk.Process.{Object, Process}
use helm_c_sdk.Process.Respects.{Respects, failed, lifted, outside_or, bound}
use helm_c_sdk.Wrapper.Charts.Frame.{load_chart-Respects}
use helm_c_sdk.Capi.Boundary.{Slot, CString, ErrorOut}
use helm_c_sdk.Capi.Boundary.Frame.{handle_result-Rel}
use helm_c_sdk.Capi.Charts.{
  go_bytes, archive_length, load_chart_archive, put_chart, load_bytes, archive_body,
  helm_chart_load, helm_chart_load_archive,
}
use helm_c_sdk.Capi.Tags.{IsTagged, tagging, put-Respects}

module _ (sdk : Sdk) where
  open sdk use {types}

  puts_chart : (c : types.Chart) → Respects (tagging types).frame (put_chart sdk c)
  unfolding put_chart
  puts_chart c = put-Respects (Object.chart c)

  bytes-Respects : (bytes : List ℕ) (n : ℤ) → Respects (tagging types).frame (go_bytes bytes n)
  unfolding go_bytes
  bytes-Respects bytes (pos n) = record { at = λ p w. w }
  bytes-Respects bytes (negsuc n) = record { at = λ p w. w }

  loads : (bytes : List ℕ) → Respects (tagging types).frame (load_chart_archive sdk bytes)
  unfolding load_chart_archive
  loads bytes = outside_or (tagging types).frame _ _

  load_bytes-Respects :
      (bytes : List ℕ) (l : ℤ × Bool) → Respects (tagging types).frame (load_bytes sdk bytes l)
  unfolding load_bytes
  load_bytes-Respects bytes (n, false) = failed (tagging types).frame _
  load_bytes-Respects bytes (n, true) =
      bound (tagging types).frame _ _ (bytes-Respects bytes n)
        λ buf. bound (tagging types).frame _ _ (loads buf) puts_chart

  archive-Respects :
      (bytes : Option (List ℕ)) (length : ℕ)
      → Respects (tagging types).frame (archive_body sdk bytes length)
  unfolding archive_body
  archive-Respects none length = failed (tagging types).frame _
  archive-Respects (some bytes) length = load_bytes-Respects bytes (archive_length length)

  pub helm_chart_load_archive-IsTagged :
      (bytes : Option (List ℕ)) (length : ℕ) (s : Slot ℕ) (o : ErrorOut) (p : Process types)
      → IsTagged p
      → IsTagged (helm_chart_load_archive sdk bytes length s o p).1
  unfolding helm_chart_load_archive
  helm_chart_load_archive-IsTagged bytes length s o p =
      handle_result-Rel (tagging types).frame s o _ p (archive-Respects bytes length)

  pub helm_chart_load-IsTagged :
      (path : CString) (s : Slot ℕ) (o : ErrorOut) (p : Process types)
      → IsTagged p
      → IsTagged (helm_chart_load sdk path s o p).1
  unfolding helm_chart_load
  helm_chart_load-IsTagged path s o p = handle_result-Rel (tagging types).frame s o _ p (
      bound (tagging types).frame _ _ (lifted (tagging types).frame _) λ given.
        bound (tagging types).frame _ _ (load_chart-Respects sdk (tagging types).frame _)
          puts_chart)
