-- ===== src/StorPort/Tests.antt =====
-- An inquiry with a buffer that is too small.
use htkis_hyper_disk.StorPort.{PortSizes, find_adapter, execute_scsi, inquiry, start_io}
use htkis_hyper_disk.StorPort.Requests.{Served, new_srb, start_io-Served}

abbrev sizes : PortSizes
sizes = record {
  inquiry_data_size = 104;
  read_capacity_data_size = 8;
  read_capacity16_data_size = 32;
  sense_data_size = 18;
}

start_io-Served_example :
    Served sizes inquiry 36 (start_io sizes find_adapter.0 execute_scsi inquiry (new_srb 36))
start_io-Served_example = start_io-Served sizes find_adapter.0 execute_scsi inquiry 36
