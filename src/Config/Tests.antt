-- ===== src/Config/Tests.antt =====
-- Runs of the configuration's checks.
use srne_inverter_to_mqtt.Base.{◌≡◌, refl, ok, String}
use srne_inverter_to_mqtt.Base.Letters.{means, is_empty}
use srne_inverter_to_mqtt.Base.Whole.{whole_numbers}
use srne_inverter_to_mqtt.Config.Types.{default_config}
use srne_inverter_to_mqtt.Config.Endpoint.{
  connection_mode, normalized_inverter_type, tcp_address, is_tcp_port, tcp_rest,
}
use srne_inverter_to_mqtt.Config.Validate.{
  validate, validate_serial, validate_polling, validate_storm, outside,
}
use srne_inverter_to_mqtt.Config.Laws.{IsValid, validate-IsValid}

default_accepted : validate whole_numbers (default_config whole_numbers) ≡ ok tt
unfolding validate is_empty normalized_inverter_type means validate_serial outside connection_mode
    tcp_address tcp_rest is_tcp_port validate_polling validate_storm
default_accepted = refl

validate-IsValid_example : IsValid String whole_numbers (default_config whole_numbers)
validate-IsValid_example =
    validate-IsValid whole_numbers (default_config whole_numbers) default_accepted
