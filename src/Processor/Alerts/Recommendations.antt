-- ===== src/Processor/Alerts/Recommendations.antt =====
-- services/processor/processor/services/alert_evaluator.py, the texts for the operator.
use hackathon_nu.Base.{Option, none, some, String}
use hackathon_nu.Shared.Enums.{
  SensorType, AlertSeverity, info, warning, critical, emergency, diesel_rpm, oil_pressure,
  coolant_temp, fuel_level, fuel_rate, traction_motor_temp, crankcase_pressure, catenary_voltage,
  pantograph_current, transformer_temp, igbt_temp, brake_pipe_pressure, wheel_slip_ratio,
  speed_actual, dc_link_voltage, recuperation_current,
}

-- `RECOMMENDATIONS`; `none` is a missing key.
unfoldable pub recommendations : SensorType → AlertSeverity → Option String
recommendations diesel_rpm warning =
    some "Проверить регулятор оборотов, снизить нагрузку на 1-2 позиции"
recommendations diesel_rpm critical =
    some "Немедленно снизить позицию контроллера, подготовить аварийное торможение"
recommendations diesel_rpm emergency =
    some "СТОП! Заглушить дизель, активировать аварийный протокол"
recommendations oil_pressure warning =
    some "Проверить уровень масла, контролировать давление каждые 5 минут"
recommendations oil_pressure critical =
    some "Снизить обороты дизеля, подготовиться к остановке для осмотра"
recommendations oil_pressure emergency =
    some "СТОП! Немедленно заглушить дизель — риск заклинивания"
recommendations coolant_temp warning =
    some "Проверить работу вентиляторов охлаждения, снизить нагрузку"
recommendations coolant_temp critical =
    some "Снизить позицию до 3-4, открыть жалюзи радиатора вручную"
recommendations coolant_temp emergency =
    some "СТОП! Остановить локомотив, заглушить дизель — перегрев"
recommendations fuel_level warning = some "Запланировать дозаправку на ближайшей станции"
recommendations fuel_level critical =
    some "Связаться с диспетчером, запросить экстренную дозаправку"
recommendations fuel_level emergency =
    some "Остановить поезд на ближайшей станции, топливо на исходе"
recommendations fuel_rate warning = some "Проверить форсунки, контролировать расход"
recommendations fuel_rate critical = some "Снизить нагрузку, проверить топливную систему на утечки"
recommendations fuel_rate emergency = some "Остановить локомотив, возможна утечка топлива"
recommendations traction_motor_temp warning =
    some "Снизить тяговое усилие, проверить вентиляцию ТЭД"
recommendations traction_motor_temp critical =
    some "Переключить на пониженный режим тяги, проверить подшипники"
recommendations traction_motor_temp emergency =
    some "СТОП! Отключить тяговые двигатели — риск возгорания обмоток"
recommendations crankcase_pressure warning =
    some "Контролировать давление, проверить состояние поршневых колец"
recommendations crankcase_pressure critical =
    some "Снизить обороты, подготовить аварийную остановку"
recommendations crankcase_pressure emergency =
    some "СТОП! Заглушить дизель — риск взрыва картерных газов"
recommendations catenary_voltage warning =
    some "Контролировать напряжение, снизить потребление тока"
recommendations catenary_voltage critical =
    some "Опустить токоприёмник, связаться с энергодиспетчером"
recommendations catenary_voltage emergency =
    some "СТОП! Немедленно опустить токоприёмник, обесточить ВВК"
recommendations pantograph_current warning =
    some "Снизить тяговое усилие, проверить контакт токоприёмника"
recommendations pantograph_current critical =
    some "Снизить скорость, подготовить опускание токоприёмника"
recommendations pantograph_current emergency =
    some "Опустить токоприёмник, активировать аварийный протокол"
recommendations transformer_temp warning =
    some "Проверить вентиляцию трансформатора, снизить ток тяги"
recommendations transformer_temp critical =
    some "Ограничить мощность до 50%, контролировать каждые 2 минуты"
recommendations transformer_temp emergency =
    some "СТОП! Отключить тяговый трансформатор — риск пробоя изоляции"
recommendations igbt_temp warning = some "Проверить систему охлаждения преобразователя"
recommendations igbt_temp critical = some "Ограничить мощность, снизить ток тяги"
recommendations igbt_temp emergency =
    some "Отключить тяговый преобразователь — перегрев IGBT-модулей"
recommendations brake_pipe_pressure warning = some "Проверить утечки в тормозной магистрали"
recommendations brake_pipe_pressure critical =
    some "Снизить скорость, подготовить экстренное торможение"
recommendations brake_pipe_pressure emergency =
    some "СТОП! Применить экстренное торможение — утечка давления"
recommendations wheel_slip_ratio warning = some "Активировать песочницу, снизить тяговое усилие"
recommendations wheel_slip_ratio critical =
    some "Снизить тягу до минимума, контролировать сцепление"
recommendations wheel_slip_ratio emergency = some "Отключить тягу, применить песок на рельсы"
recommendations speed_actual warning = some "Снизить скорость до установленного ограничения"
recommendations speed_actual critical = some "Немедленно применить служебное торможение"
recommendations speed_actual emergency =
    some "Применить экстренное торможение — превышение скорости"
recommendations dc_link_voltage warning = some "Контролировать напряжение звена постоянного тока"
recommendations dc_link_voltage critical =
    some "Снизить мощность рекуперации, проверить конденсаторы"
recommendations dc_link_voltage emergency = some "Отключить тяговый инвертор — опасное напряжение"
recommendations recuperation_current warning = some "Снизить ток рекуперации, проверить нагрузку"
recommendations recuperation_current critical = some "Переключить на реостатное торможение"
recommendations recuperation_current emergency = some "Отключить рекуперацию — перегрузка цепи"
recommendations _ _ = none

-- `_DEFAULT_RECOMMENDATION`
unfoldable pub default_recommendation : AlertSeverity → String
default_recommendation info = "Параметр отклонился от нормы — продолжайте мониторинг"
default_recommendation warning = "Проверить параметр, подготовить план действий"
default_recommendation critical = "Требуется немедленное вмешательство оператора"
default_recommendation emergency = "АВАРИЙНАЯ СИТУАЦИЯ — следуйте аварийному протоколу"

unfoldable pub get_recommendation : SensorType → AlertSeverity → String
unfolding recommendations default_recommendation
get_recommendation s severity = elim (recommendations s severity) [
  | none ↦ default_recommendation severity
  | some text ↦ text
]
