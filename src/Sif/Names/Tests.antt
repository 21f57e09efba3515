-- ===== src/Sif/Names/Tests.antt =====
-- Runs of the field names.
use do_logger.Prelude.{refl, ◌≡◌, true, not, ◌||◌, ◌==◌, arith}
use do_logger.Record.Tags.{bytes_of, no_vendors}
use do_logger.Sif.Names.{
  field_name_for_tag, register_vendor_tag, validate_name, vendor_name_for_tag,
}
use do_logger.Sif.Names.Wire.{core_names_valid}

core_names_valid_example :
    validate_name (field_name_for_tag no_vendors 10) ≡ not (10 == 10 || 10 == 23)
unfolding vendor_name_for_tag
core_names_valid_example = core_names_valid no_vendors 10 (omega arith) refl

a_registered_name :
    field_name_for_tag
      (register_vendor_tag (bytes_of "ext.a") 70 (record no_vendors { ready = true }))
      70
    ≡ bytes_of "ext.a"
unfolding field_name_for_tag register_vendor_tag
a_registered_name = refl
