-- ===== src/Wrapper/Settings/Frame.antt =====
-- pkg/wrapper/settings.go: the configurations while a private directory is made.
use helm_c_sdk.Base.{String}
use helm_c_sdk.Errors.{code_io}
use helm_c_sdk.Sdk.{Sdk}
use helm_c_sdk.Process.Respects.{Frame, Respects, outside_or}
use helm_c_sdk.Wrapper.Settings.{private_temp_dir}

module _ (sdk : Sdk) (F : Frame sdk.types) where
  pub temp-Respects : (prefix : String) → Respects F (private_temp_dir sdk prefix)
  unfolding private_temp_dir
  temp-Respects prefix = outside_or F code_io _
